-- ===== src/Helpers/Retries.antt =====
-- Retry of helpers/utils.go.
use go_dcp.Prelude.{
  ℕ, zero, suc, ◌+◌, ◌≤◌, ◌<◌, ◌≡◌, ap, sym, ◌∙◌, ◌≢◌, inl, inr, Option, none, some, arith,
  Option-cases,
}
use go_dcp.Helpers.{retry_loop, retry}

-- No call from the i-th up to, and without, the j-th answers nil.
abbrev pub Fails {ℓ} : {E : Type ℓ} → (ℕ → Option E) → ℕ → ℕ → Type ℓ
Fails f i j = (n : ℕ) → i ≤ n → n < j → f n ≢ none

module _ {ℓ} {E : Type ℓ} (f : ℕ → Option E) where
  loop_stops :
      (left i : ℕ) (err : Option E) → f i ≡ none → retry_loop f (suc left) i err ≡ (none, i + 1)
  unfolding retry_loop
  loop_stops left i err ok = rw (ok, retry_loop)

  loop_goes_on :
      (left i : ℕ) (err : Option E) {e : E}
      → f i ≡ some e
      → retry_loop f (suc left) i err ≡ retry_loop f left (i + 1) (f i)
  unfolding retry_loop
  loop_goes_on left i err failed =
      rw (failed, retry_loop) (ap (λ o. retry_loop f left (i + 1) o) failed)

  loop_first :
      (left i d : ℕ) (err : Option E)
      → d < left
      → f (i + d) ≡ none
      → Fails f i (i + d)
      → retry_loop f left i err ≡ (none, i + d + 1)
  loop_first zero i d err h ok fails = elim h [ ]
  loop_first (suc left) i zero err h ok fails =
      let e : i + 0 ≡ i = omega arith in
      loop_stops left i err (ap f (sym e) ∙ ok) ∙ ap (λ (n : ℕ). (none, n + 1)) (sym e)
  loop_first (suc left) i (suc d) err h ok fails = elim (Option-cases (f i)) [
    | inl now ↦ absurd (fails i (omega arith) (omega arith) now)
    | inr (e, failed) ↦
        let shift : i + suc d ≡ i + 1 + d = omega arith in
        loop_goes_on left i err failed
        ∙ loop_first left (i + 1) d (f i) (omega arith) (ap f (sym shift) ∙ ok)
            (λ n lo hi. fails n (omega arith) (omega arith))
        ∙ ap (λ (n : ℕ). (none, n + 1)) (sym shift)
  ]

  loop_exhausts :
      (left i : ℕ) (err : Option E)
      → Fails f i (i + suc left)
      → retry_loop f (suc left) i err ≡ (f (i + left), i + left + 1)
  unfolding retry_loop
  loop_exhausts zero i err fails = elim (Option-cases (f i)) [
    | inl now ↦ absurd (fails i (omega arith) (omega arith) now)
    | inr (e, failed) ↦
        let here : i + 0 ≡ i = omega arith in
        loop_goes_on 0 i err failed ∙ ap (λ (n : ℕ). (f n, n + 1)) (sym here)
  ]
  loop_exhausts (suc left) i err fails = elim (Option-cases (f i)) [
    | inl now ↦ absurd (fails i (omega arith) (omega arith) now)
    | inr (e, failed) ↦
        let shift : i + suc left ≡ i + 1 + left = omega arith in
        loop_goes_on (suc left) i err failed
        ∙ loop_exhausts left (i + 1) (f i) (λ n lo hi. fails n (omega arith) (omega arith))
        ∙ ap (λ (n : ℕ). (f n, n + 1)) (sym shift)
  ]

  -- If the call with number `k` is the first of the `attempts` to answer nil, Retry makes `k + 1`
  -- calls and returns nil.
  pub retry_first_success :
      (attempts k : ℕ) → k < attempts → f k ≡ none → Fails f 0 k → retry f attempts ≡ (none, k + 1)
  unfolding retry
  retry_first_success attempts k h ok fails =
      let e : 0 + k ≡ k = omega arith in
      loop_first attempts 0 k none h (ap f e ∙ ok) (λ n lo hi. fails n lo (omega arith))
      ∙ ap (λ (n : ℕ). (none, n + 1)) e

  -- If none of the `attempts` calls answers nil, Retry makes them all and returns the last error.
  pub retry_exhausted : (n : ℕ) → Fails f 0 (suc n) → retry f (suc n) ≡ (f n, n + 1)
  unfolding retry
  retry_exhausted n fails =
      let e : 0 + n ≡ n = omega arith in
      loop_exhausts n 0 none (λ m lo hi. fails m lo (omega arith)) ∙ ap (λ (m : ℕ). (f m, m + 1)) e
