-- ===== src/Metrics/Labels.antt =====
-- The values of labels that Collect hands over, for metric/collector.go.
use go_dcp.Prelude.{
  ℕ, ◌+◌, ◌*◌, ◌≡◌, refl, Option, none, some, List, [], ◌∷◌, ◌++◌, String, length, length-append,
  All, All-append, ap₂, pos, nat_comparable, arith,
}
use go_dcp.Wrapper.{CsMap, ConcurrentSwissMap, count}
use go_dcp.Wrapper.Laws.{each, items, range-each, count-items}
use go_dcp.Models.{Offset, AgentQueue}
use go_dcp.Observer.{Observer}
use go_dcp.Stream.{Stream}
use go_dcp.Discovery.{VBucketDiscoveryMetric}
use go_dcp.Metrics.Descs.{Prometheus, gauge_value, total_lag, new_metric_collector}
use go_dcp.Metrics.Defs.{
  Measured, Sample, sample, invalid, observer_samples, queue_samples, offset_round, rest_samples,
  samples,
}

module _ ⦃cs : CsMap ℕ⦄ (prometheus : Prometheus) where
  open prometheus use {Metric, Float, of_int}

  abbrev pub IsLabelled : Sample Float → Type 0
  IsLabelled (sample field type value labels) =
      length labels ≡ length (new_metric_collector prometheus field).variable_labels
  IsLabelled (invalid field) = Unit

  observers-IsLabelled :
      (l : List (ℕ × Observer)) (ss : List (Sample Float))
      → All IsLabelled ss
      → All IsLabelled (each (λ vb_id o sent. sent ++ observer_samples prometheus vb_id o) l ss)
        × (length (each (λ vb_id o sent. sent ++ observer_samples prometheus vb_id o) l ss)
            ≡ length ss + 4 * length l)
  unfolding new_metric_collector
  observers-IsLabelled [] ss h = (h, omega arith)
  observers-IsLabelled ((vb_id, o) ∷ l) ss h =
      let sent = ss ++ observer_samples prometheus vb_id o in
      let (labelled, counted) =
        observers-IsLabelled l sent
          (All-append IsLabelled ss _ h (refl, (refl, (refl, (refl, tt))))) in
      (labelled, omega (arith, length-append ss (observer_samples prometheus vb_id o)))

  queues-IsLabelled :
      (queues : List AgentQueue)
      → All IsLabelled (queue_samples prometheus queues)
        × (length (queue_samples prometheus queues) ≡ 2 * length queues)
  unfolding new_metric_collector
  queues-IsLabelled [] = (tt, omega arith)
  queues-IsLabelled (queue ∷ queues) =
      let (labelled, counted) = queues-IsLabelled queues in ((refl, (refl, labelled)), omega arith)

  offsets-IsLabelled :
      (seq_nos : Option (ConcurrentSwissMap ℕ ℕ)) (l : List (ℕ × Offset)) (ss : List (Sample Float))
      → (total : Float) → All IsLabelled ss
      → All IsLabelled (each (offset_round prometheus seq_nos) l (ss, total)).0
        × (length (each (offset_round prometheus seq_nos) l (ss, total)).0
            ≡ length ss + 4 * length l)
  unfolding new_metric_collector
  offsets-IsLabelled none [] ss total h = (h, omega arith)
  offsets-IsLabelled (some seq_nos) [] ss total h = (h, omega arith)
  offsets-IsLabelled none ((vb_id, o) ∷ l) ss total h =
      let (sent, total') = offset_round prometheus none vb_id o (ss, total) in
      let (labelled, counted) =
        offsets-IsLabelled none l sent total'
          (All-append IsLabelled ss _ h (refl, (refl, (refl, (tt, tt))))) in
      (labelled, omega (arith, length-append {A = Sample Float} ss))
  offsets-IsLabelled (some seq_nos) ((vb_id, o) ∷ l) ss total h =
      let (sent, total') = offset_round prometheus (some seq_nos) vb_id o (ss, total) in
      let (labelled, counted) =
        offsets-IsLabelled (some seq_nos) l sent total'
          (All-append IsLabelled ss _ h (refl, (refl, (refl, (refl, tt))))) in
      (labelled, omega (arith, length-append {A = Sample Float} ss))

  abbrev pub of_observers : ConcurrentSwissMap ℕ Observer → List (Sample Float)
  of_observers observers =
      each (λ vb_id o sent. sent ++ observer_samples prometheus vb_id o) (items observers) []

  abbrev pub of_offsets : Stream → Option (ConcurrentSwissMap ℕ ℕ) → List (Sample Float) × Float
  of_offsets s seq_nos =
      each (offset_round prometheus seq_nos) (items s.offsets) ([], of_int (pos 0))

  module _ (s : Stream) (observers : ConcurrentSwissMap ℕ Observer)
      (seq_nos : Option (ConcurrentSwissMap ℕ ℕ)) (queues : List AgentQueue)
      (discovery : VBucketDiscoveryMetric) (type : String) (measured : Measured) where
    abbrev rest : List (Sample Float)
    rest = rest_samples prometheus s discovery type measured

    -- The walks over the two maps, item by item.
    pub samples-each :
        samples prometheus s observers seq_nos queues discovery type measured
        ≡ (of_observers observers)
          ++ (queue_samples prometheus queues
              ++ ((of_offsets s seq_nos).0
                  ++ (sample total_lag gauge_value (of_offsets s seq_nos).1 [] ∷ rest)))
    unfolding samples
    samples-each =
        ap₂
          (λ obs p.
            obs
            ++ (queue_samples prometheus queues
                ++ (p.0 ++ (sample total_lag gauge_value p.1 [] ∷ rest))))
          (range-each observers (λ vb_id o sent. sent ++ observer_samples prometheus vb_id o) [])
          (range-each s.offsets (offset_round prometheus seq_nos) ([], of_int (pos 0)))

    rest-IsLabelled :
        All IsLabelled (sample total_lag gauge_value (of_offsets s seq_nos).1 [] ∷ rest)
    unfolding new_metric_collector
    rest-IsLabelled = (
      refl,
      (
        refl,
        (refl, (refl, (refl, (refl, (refl, (refl, (refl, (refl, (refl, (refl, (refl, tt))))))))))),
      ),
    )

    -- Collect hands each metric one value for each label of the description that it is made with, in
    -- the metrics of observers, queues and offsets as in the single ones, whether the highest numbers
    -- of the vBuckets are known or not; and it sends four metrics for each observer, two for each
    -- queue of an agent, four for each offset, and thirteen more.
    pub samples-IsLabelled :
        All IsLabelled (samples prometheus s observers seq_nos queues discovery type measured)
        × (length (samples prometheus s observers seq_nos queues discovery type measured)
            ≡ 4 * count observers + 2 * length queues + 4 * count s.offsets + 13)
    samples-IsLabelled =
        let (obs, obs_count) = observers-IsLabelled (items observers) [] tt in
        let (qs, qs_count) = queues-IsLabelled queues in
        let (offs, offs_count) =
          offsets-IsLabelled seq_nos (items s.offsets) [] (of_int (pos 0)) tt in
        rw samples-each (
          All-append IsLabelled (of_observers observers) _ obs (
              All-append IsLabelled (queue_samples prometheus queues) _ qs
                (All-append IsLabelled (of_offsets s seq_nos).0 _ offs rest-IsLabelled)),
          omega (
            arith,
            length-append {A = Sample Float},
            obs_count,
            qs_count,
            offs_count,
            count-items observers,
            count-items s.offsets,
          ),
        )
