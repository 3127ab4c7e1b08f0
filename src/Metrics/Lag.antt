-- ===== src/Metrics/Lag.antt =====
-- The lags and the total lag that Collect sends, for metric/collector.go.
use go_dcp.Prelude.{
  ℕ, ◌+◌, ◌-◌, ◌^◌, ◌≤◌, ◌≡◌, ap, ap₂, Bool-cases, ◌==◌, ◌∙◌, ◌⊎◌, inl, inr, pos, some, List, [],
  ◌∷◌, ◌++◌, String, nat_comparable, lookup, arith, ==_iff,
}
use mathlib.Core.Option.{none-ne-some}
use go_dcp.Strconv.{itoa}
use go_dcp.Wrapper.{CsMap, ConcurrentSwissMap, load}
use go_dcp.Wrapper.Laws.{each, items, lookup-items}
use go_dcp.Models.{Offset, AgentQueue}
use go_dcp.Observer.{Observer}
use go_dcp.Stream.{Stream}
use go_dcp.Discovery.{VBucketDiscoveryMetric}
use go_dcp.Metrics.Descs.{Prometheus, gauge_value, lag, total_lag}
use go_dcp.Metrics.Defs.{
  Measured, Sample, sample, gauge, or_zero, lag_of, queue_samples, offset_round, rest_samples,
  samples,
}
use go_dcp.Metrics.Labels.{of_observers, of_offsets, samples-each}

module _ ⦃cs : CsMap ℕ⦄ (seq_nos : ConcurrentSwissMap ℕ ℕ) where
  -- How far the number of an offset is below the highest number of its vBucket.
  abbrev pub behind : ℕ → Offset → ℕ
  behind vb_id o = or_zero (load seq_nos vb_id) - o.seq_no

  abbrev pub behind_in_all : List (ℕ × Offset) → ℕ
  behind_in_all [] = 0
  behind_in_all ((vb_id, o) ∷ l) = behind vb_id o + behind_in_all l

module _ ⦃cs : CsMap ℕ⦄ (prometheus : Prometheus) where
  open prometheus use {Float, of_int, plus}

  abbrev pub IsSent : Sample Float → List (Sample Float) → Type 0
  IsSent x [] = ⊥
  IsSent x (y ∷ ys) = (y ≡ x) ⊎ IsSent x ys

  -- Whole numbers up to 2 ^ 53 are added without an error.
  abbrev pub AddsExactly : Type 0
  AddsExactly =
      (m n : ℕ) → m + n ≤ 2 ^ 53 → plus (of_int (pos m)) (of_int (pos n)) ≡ of_int (pos (m + n))

  IsSent-left : (x : Sample Float) (xs ys : List (Sample Float)) → IsSent x xs → IsSent x (xs ++ ys)
  IsSent-left x [] ys h = absurd h
  IsSent-left x (y ∷ xs) ys (inl here) = inl here
  IsSent-left x (y ∷ xs) ys (inr later) = inr (IsSent-left x xs ys later)

  IsSent-right :
      (x : Sample Float) (xs ys : List (Sample Float)) → IsSent x ys → IsSent x (xs ++ ys)
  IsSent-right x [] ys h = h
  IsSent-right x (y ∷ xs) ys h = inr (IsSent-right x xs ys h)

  module _ (seq_nos : ConcurrentSwissMap ℕ ℕ) where
    lag_of-behind : (seq_no : ℕ) (o : Offset) → lag_of seq_no o ≡ seq_no - o.seq_no
    unfolding lag_of
    lag_of-behind seq_no o = ground arith

    abbrev round : ℕ → Offset → List (Sample Float) × Float → List (Sample Float) × Float
    round = offset_round prometheus (some seq_nos)

    total-behind :
        (l : List (ℕ × Offset)) (ss : List (Sample Float)) (n : ℕ)
        → AddsExactly
        → n + behind_in_all seq_nos l ≤ 2 ^ 53
        → (each round l (ss, of_int (pos n))).1 ≡ of_int (pos (n + behind_in_all seq_nos l))
    total-behind [] ss n exact le = ap (λ k. of_int (pos k)) (omega arith)
    total-behind ((vb_id, o) ∷ l) ss n exact le =
        let (sent, total) = round vb_id o (ss, of_int (pos n)) in
        ap (λ t. (each round l (sent, t)).1)
          (ap (λ k. plus (of_int (pos n)) (of_int (pos k)))
              (lag_of-behind (or_zero (load seq_nos vb_id)) o)
            ∙ exact n (behind seq_nos vb_id o) (omega arith))
        ∙ total-behind l sent (n + behind seq_nos vb_id o) exact (omega arith)
        ∙ ap (λ k. of_int (pos k)) (omega arith)

    IsSent-earlier :
        (x : Sample Float) (l : List (ℕ × Offset)) (ss : List (Sample Float)) (total : Float)
        → IsSent x ss
        → IsSent x (each round l (ss, total)).0
    IsSent-earlier x [] ss total h = h
    IsSent-earlier x ((vb_id, o) ∷ l) ss total h = IsSent-earlier x l _ _ (IsSent-left x ss _ h)

    IsSent-behind :
        (l : List (ℕ × Offset)) (ss : List (Sample Float)) (total : Float) (j : ℕ) (o : Offset)
        → lookup j l ≡ some o
        → IsSent
            (gauge prometheus lag (pos (behind seq_nos j o)) (itoa j ∷ []))
            (each round l (ss, total)).0
    IsSent-behind [] ss total j o h = absurd (none-ne-some o h)
    IsSent-behind ((vb_id, o') ∷ l) ss total j o h = elim (Bool-cases (vb_id == j)) [
      | inl same ↦
          let found : o' ≡ o = ground (arith, h, same) in
          IsSent-earlier (gauge prometheus lag (pos (behind seq_nos j o)) (itoa j ∷ [])) l _ _ (
            IsSent-right _ ss _ (
              inr (
                inr (
                  inr (
                    inl (
                      ap₂
                        (λ k p.
                          gauge prometheus lag (pos (lag_of (or_zero (load seq_nos k)) p))
                            (itoa k ∷ []))
                        ((==_iff vb_id j).0 same) found
                      ∙ ap (λ k. gauge prometheus lag (pos k) (itoa j ∷ []))
                          (lag_of-behind (or_zero (load seq_nos j)) o)))))))
      | inr other ↦ IsSent-behind l _ _ j o (rw other at h)
    ]

  -- What is sent with the offsets or after them.
  after_queues :
      (s : Stream) (observers : ConcurrentSwissMap ℕ Observer) (seq_nos : ConcurrentSwissMap ℕ ℕ)
      → (queues : List AgentQueue) (discovery : VBucketDiscoveryMetric) (type : String)
      → (measured : Measured) (x : Sample Float)
      → IsSent x (
          (of_offsets prometheus s (some seq_nos)).0
          ++ (sample total_lag gauge_value (of_offsets prometheus s (some seq_nos)).1 []
              ∷ rest_samples prometheus s discovery type measured))
      → IsSent x (samples prometheus s observers (some seq_nos) queues discovery type measured)
  after_queues s observers seq_nos queues discovery type measured x h =
      rw (samples-each prometheus s observers (some seq_nos) queues discovery type measured) (
        IsSent-right x (of_observers prometheus observers) _
          (IsSent-right x (queue_samples prometheus queues) _ h))

  -- The highest numbers of the vBuckets are known. Then Collect sends, for each offset, how far its
  -- number is below the highest number of its vBucket (zero where the number is not below it, or the
  -- vBucket has no number); and when these come to no more than 2 ^ 53, which a float64 adds exactly,
  -- it sends their sum as the total lag.
  pub samples_lem :
      (s : Stream) (observers : ConcurrentSwissMap ℕ Observer) (seq_nos : ConcurrentSwissMap ℕ ℕ)
      → (queues : List AgentQueue) (discovery : VBucketDiscoveryMetric) (type : String)
      → (measured : Measured) → AddsExactly
      → behind_in_all seq_nos (items s.offsets) ≤ 2 ^ 53
      → ((j : ℕ) (o : Offset)
          → load s.offsets j ≡ some o
          → IsSent
              (gauge prometheus lag (pos (behind seq_nos j o)) (itoa j ∷ []))
              (samples prometheus s observers (some seq_nos) queues discovery type measured))
        × IsSent
            (gauge prometheus total_lag (pos (behind_in_all seq_nos (items s.offsets))) [])
            (samples prometheus s observers (some seq_nos) queues discovery type measured)
  samples_lem s observers seq_nos queues discovery type measured exact le =
      let sum = behind_in_all seq_nos (items s.offsets) in
      let none_before : 0 + sum ≡ sum = omega arith in
      let (sent, total) = of_offsets prometheus s (some seq_nos) in
      let later = after_queues s observers seq_nos queues discovery type measured in
      let summed : total ≡ of_int (pos sum) =
        total-behind seq_nos (items s.offsets) [] 0 exact (rw none_before le)
        ∙ ap (λ k. of_int (pos k)) none_before in
      (
        (λ j o kept.
            let x = gauge prometheus lag (pos (behind seq_nos j o)) (itoa j ∷ []) in
            later x (
              IsSent-left x sent _ (
                IsSent-behind seq_nos (items s.offsets) [] (of_int (pos 0)) j o
                  (lookup-items s.offsets j ∙ kept)))),
        (let x = gauge prometheus total_lag (pos sum) [] in
            later x (
              IsSent-right x sent
                (sample total_lag gauge_value total []
                  ∷ rest_samples prometheus s discovery type measured)
                (inl (ap (λ t. sample total_lag gauge_value t []) summed)))),
      )
