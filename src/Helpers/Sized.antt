-- ===== src/Helpers/Sized.antt =====
-- ChunkSliceWithSize of helpers/utils.go.
use mathlib.Core.List.{flatten}
use go_dcp.Prelude.{
  ℕ, zero, suc, ◌+◌, ◌-◌, ◌≤◌, ◌<◌, ◌≡◌, ◌⊎◌, refl, ap, sym, ◌∙◌, inl, inr, Option, some, List, [],
  ◌∷◌, ◌++◌, arith, length, take, drop, ltb, ltb→lt, ltb→lt_false, length-append, Bool-cases,
  drop-eq_nil, take-append-drop_at, length-slice, ◌>>=◌,
}
use go_dcp.Helpers.{sized_loop, chunk_slice_with_size}

-- Every piece but the last has exactly `size` items; the last has at least one and at most `size`.
abbrev pub AreSized {ℓ} : {A : Type ℓ} → ℕ → List (List A) → Type 0
AreSized size [] = Unit
AreSized size (c ∷ []) = (0 < length c) × (length c ≤ size)
AreSized size (c ∷ d ∷ cs) = (length c ≡ size) × AreSized size (d ∷ cs)

abbrev Cut {ℓ} : {A : Type ℓ} → Option (List (List A)) → ℕ → List A → Type ℓ
Cut {A = A} result size rest =
    (cs : List (List A)) × (result ≡ some cs) × (flatten cs ≡ rest) × AreSized size cs

flatten-zero {ℓ} :
    {A : Type ℓ} (size : ℕ) (d : List A) (cs : List (List A))
    → AreSized size (d ∷ cs)
    → 0 < size
    → 0 < length (flatten (d ∷ cs))
unfolding flatten
flatten-zero size d [] h pos = omega (arith, length-append d [])
flatten-zero size d (e ∷ cs) h pos = omega (arith, length-append d (flatten (e ∷ cs)))

AreSized-cons {ℓ} :
    {A : Type ℓ} (size : ℕ) (c : List A) (cs : List (List A))
    → 0 < size
    → 0 < length c
    → length c ≤ size
    → ((length (flatten cs) ≡ 0) ⊎ (length c ≡ size))
    → AreSized size cs
    → AreSized size (c ∷ cs)
AreSized-cons size c [] big pos fits full h = (pos, fits)
AreSized-cons size c (d ∷ cs) big pos fits (inl empty) h =
    absurd (omega (arith, flatten-zero size d cs h big))
AreSized-cons size c (d ∷ cs) big pos fits (inr full) h = (full, h)

-- One round, whose piece ends at `end`.
sized_step {ℓ} :
    {A : Type ℓ} (xs : List A) (size i end : ℕ) (tail : Option (List (List A)))
    → 0 < size
    → i < end
    → end ≤ i + size
    → end ≤ length xs
    → (end ≡ length xs) ⊎ (end ≡ i + size)
    → drop (i + size) xs ≡ drop end xs
    → Cut tail size (drop (i + size) xs)
    → Cut (do rest ← tail; some (take (end - i) (drop i xs) ∷ rest)) size (drop i xs)
unfolding flatten
sized_step xs size i end tail big lo fits hi last same (cs, e, joined, sized) =
    let len = length-slice i end xs (omega arith) hi in
    (
      take (end - i) (drop i xs) ∷ cs,
      rw e,
      ap (λ l. take (end - i) (drop i xs) ++ l) (joined ∙ same)
          ∙ take-append-drop_at i end xs (omega arith),
      AreSized-cons size _ cs big (omega arith) (omega arith) (ends last len) sized,
    )
  where
    ends :
        (end ≡ length xs) ⊎ (end ≡ i + size)
        → length (take (end - i) (drop i xs)) ≡ end - i
        → (length (flatten cs) ≡ 0) ⊎ (length (take (end - i) (drop i xs)) ≡ size)
    ends (inl whole) len = inl (ap length (joined ∙ same ∙ drop-eq_nil end xs (omega arith)))
    ends (inr exact) len = inr (omega arith)

sized_loop_lem {ℓ} :
    {A : Type ℓ} (fuel : ℕ) (xs : List A) (size i : ℕ)
    → 0 < size
    → 0 < fuel
    → length xs < fuel + i
    → Cut (sized_loop fuel xs size i) size (drop i xs)
unfolding sized_loop flatten
sized_loop_lem zero xs size i pos some_fuel enough = elim some_fuel [ ]
sized_loop_lem (suc fuel) xs size i pos some_fuel enough = elim (Bool-cases (ltb i (length xs))) [
  | inr done ↦
      rw done
        ([], refl, sym (drop-eq_nil i xs (omega (arith, ltb→lt_false i (length xs) done))), tt)
  | inl more ↦
      let inside : i < length xs = ltb→lt i (length xs) more in
      let rest = sized_loop_lem fuel xs size (i + size) pos (omega arith) (omega arith) in
      rw more (elim (Bool-cases (ltb (length xs) (i + size))) [
        | inl over ↦
            let o : length xs < i + size = ltb→lt (length xs) (i + size) over in
            rw over (
              sized_step xs size i (length xs) (sized_loop fuel xs size (i + size)) pos inside
                (omega arith) (omega arith) (inl refl)
                (drop-eq_nil (i + size) xs (omega arith)
                  ∙ sym (drop-eq_nil (length xs) xs (omega arith)))
                rest)
        | inr fits ↦
            let f : i + size ≤ length xs = ltb→lt_false (length xs) (i + size) fits in
            rw fits (
              sized_step xs size i (i + size) (sized_loop fuel xs size (i + size)) pos (omega arith)
                (omega arith) f (inr refl) refl rest)
      ])
]

-- For a positive size, ChunkSliceWithSize ends; its chunks joined are the slice, every chunk but
-- the last has exactly `size` items, and the last one to `size`.
pub chunk_slice_with_size_lem {ℓ} :
    {A : Type ℓ} (xs : List A) (size : ℕ)
    → 0 < size
    → (cs : List (List A)) × (chunk_slice_with_size xs size ≡ some cs)
      × (flatten cs ≡ xs)
      × AreSized size cs
unfolding chunk_slice_with_size
chunk_slice_with_size_lem xs size pos =
    sized_loop_lem (suc (length xs)) xs size 0 pos (omega arith) (omega arith)
