-- ===== src/Examples/Measures.antt =====
-- A stream that is measured, and collectors that are registered, for metric/collector.go and
-- metric/registerer.go.
use go_dcp.Prelude.{
  ℕ, ◌+◌, ◌≡◌, refl, ℤ, pos, Bool, true, false, not, ◌&&◌, ◌||◌, Option, none, some, List, [], ◌∷◌,
  length, arith, All, ◌*◌, contains, ◌==◌, nat_comparable, if◌then◌else◌,
}
use go_dcp.Strconv.{itoa}
use go_dcp.Wrapper.{ConcurrentSwissMap, create, load, store, count}
use go_dcp.Models.{Offset, AgentQueue}
use go_dcp.Observer.{Observer}
use go_dcp.Stream.{Stream}
use go_dcp.Lifecycle.{stream_close, close_all_streams, close_observers, forget_streams}
use go_dcp.Discovery.{VBucketDiscoveryMetric}
use go_dcp.Metrics.{Desc, ValueType, Prometheus, total_lag, lag, Measured, gauge, samples, collect}
use go_dcp.Metrics.Labels.{IsLabelled, samples-IsLabelled}
use go_dcp.Metrics.Lag.{IsSent, behind, samples_lem}
use go_dcp.Metrics.Registerer.{
  Registry, Registerer, without, wrap_with_registerer, register_all, unregister_all,
}
use go_dcp.Metrics.Registered.{every, unregister_all-register_all}
use go_dcp.Metrics.Stale.{unregister_all-closed}
use go_dcp.Examples.Fixtures.{nat_table, offset_at, open_observer}
use go_dcp.Examples.Lifecycles.{observed_stream}

-- Metrics are lists of values with a description, and floats are integers.
abbrev made : Desc → ValueType → ℤ → List (List ℕ) → Option (Desc × List (List ℕ))
made desc type value labels =
    if length labels == length desc.variable_labels then some (desc, labels) else none

abbrev plus : ℤ → ℤ → ℤ
plus (pos m) (pos n) = pos (m + n)
plus a b = a

abbrev lists : Prometheus
lists = record {
  Metric = Desc × List (List ℕ);
  Float = ℤ;
  of_int = λ n. n;
  plus = plus;
  build_fq_name = λ namespace subsystem name. name;
  must_new_const_metric = made;
  new_invalid_metric = λ desc. (desc, []);
}

abbrev measured : Measured
measured = record {
  process_latency = pos 5;
  dcp_latency = pos 7;
  offset_write = pos 1;
  offset_write_latency = pos 2;
}

abbrev metric : VBucketDiscoveryMetric
metric = record {
  total_members = 2;
  member_number = 1;
  v_bucket_count = 10;
  v_bucket_range_start = 0;
  v_bucket_range_end = 4;
}

abbrev queue : AgentQueue
queue = record { address = b'a' ∷ []; is_dcp = true; current = pos 3; max = pos 2048 }

-- Vbucket 3 is at 14 of 20.
abbrev watched : Stream
watched = record observed_stream { offsets = store (create Offset 1024) 3 (offset_at 14) }

abbrev highest : ConcurrentSwissMap ℕ ℕ
highest = store (create ℕ 1024) 3 20

abbrev watched_observers : ConcurrentSwissMap ℕ Observer
watched_observers = store (create Observer 1024) 3 open_observer

samples-IsLabelled_example :
    All (IsLabelled lists) (
      samples lists watched watched_observers
        (some highest)
        (queue ∷ [])
        metric
        "couchbase"
        measured)
    × (length (
          samples lists watched watched_observers
            (some highest)
            (queue ∷ [])
            metric
            "couchbase"
            measured)
        ≡ 4 * count watched_observers + 2 * 1 + 4 * count watched.offsets + 13)
samples-IsLabelled_example =
    samples-IsLabelled lists watched watched_observers (some highest) (queue ∷ []) metric
      "couchbase" measured

samples_lem_example :
    ((j : ℕ) (o : Offset)
      → load watched.offsets j ≡ some o
      → IsSent lists (gauge lists lag (pos (behind highest j o)) (itoa j ∷ [])) (
          samples lists watched watched_observers
            (some highest)
            (queue ∷ [])
            metric
            "couchbase"
            measured))
    × IsSent lists (gauge lists total_lag (pos 6) []) (
        samples lists watched watched_observers
          (some highest)
          (queue ∷ [])
          metric
          "couchbase"
          measured)
unfolding create store load
samples_lem_example =
    samples_lem lists watched watched_observers highest (queue ∷ []) metric "couchbase" measured
      (λ m n le. refl) (omega arith)

-- A registry is the list of what is registered.
abbrev register_in_list : List ℕ → ℕ → Bool → List ℕ × Bool
register_in_list s c false = (s, true)
register_in_list s c true = if contains c s then (s, false) else (c ∷ s, true)

abbrev unregister_in_list : List ℕ → ℕ → Bool → List ℕ × Bool
unregister_in_list s c false = (s, false)
unregister_in_list s c true = (without c s, contains c s)

contains-register :
    (s : List ℕ) (c d : ℕ)
    → contains d (register_in_list s c true).0
      ≡ (contains d s || ((register_in_list s c true).1 && c == d))
contains-register s c d = ground arith

contains-unregister :
    (s : List ℕ) (c d : ℕ) → contains d (without c s) ≡ (contains d s && not (c == d))
contains-unregister [] c d = refl
contains-unregister (x ∷ s) c d = ground (arith, contains-unregister s c d)

register-fresh : (s : List ℕ) (c : ℕ) → (register_in_list s c true).1 ≡ true → contains c s ≡ false
register-fresh s c h = ground arith

abbrev list_registry : Registry
list_registry = record {
  State = List ℕ;
  register = register_in_list;
  unregister = unregister_in_list;
  has = λ s c. contains c s;
  has-register = contains-register;
  register-new = register-fresh;
  unregister-has = λ s c. refl;
  has-unregister = contains-unregister;
  unregister-undescribed = λ s c. refl;
}

unregister_all-register_all_example :
    (u : Registerer list_registry) × (fine : Bool) × (last : List ℕ) × (register_all list_registry
        (every list_registry)
        (wrap_with_registerer list_registry (some (9 ∷ [])))
        (1 ∷ 9 ∷ 2 ∷ [])
      ≡ (u, fine))
    × (unregister_all list_registry (every list_registry) u
        ≡ (record { wrap = some last; cs = [] }, true))
    × ((d : ℕ) → contains d last ≡ contains d (9 ∷ []))
unregister_all-register_all_example =
    unregister_all-register_all list_registry (9 ∷ []) (1 ∷ 9 ∷ 2 ∷ [])

unregister_all-closed_example :
    unregister_all list_registry (λ c. false) (record { wrap = some (1 ∷ []); cs = 1 ∷ [] })
    ≡ (record { wrap = some (1 ∷ []); cs = 1 ∷ [] }, false)
unfolding stream_close close_all_streams close_observers forget_streams collect
unregister_all-closed_example =
    unregister_all-closed lists list_registry (1 ∷ []) 1 (λ c. false) (λ s. s) watched
      (forget_streams (close_observers watched true)) true
      (close_all_streams (close_observers watched true)) (some highest) [] metric "couchbase"
      measured refl refl
