-- ===== src/Metrics/Defs.antt =====
-- metric/collector.go: Collect.
use go_dcp.Prelude.{
  ℕ, ◌-◌, ◌^◌, ℤ, pos, negsuc, Bool, true, false, Option, none, some, List, [], ◌∷◌, ◌++◌, String,
  nat_comparable, codes, ltb, if◌then◌else◌, ◌>>=◌,
}
use go_dcp.Strconv.{itoa}
use go_dcp.Wrapper.{CsMap, ConcurrentSwissMap, load, range}
use go_dcp.Models.{Offset, AgentQueue}
use go_dcp.Observer.{Observer}
use go_dcp.Stream.{Stream}
use go_dcp.Discovery.{VBucketDiscoveryMetric}
use go_dcp.Metrics.Descs.{
  ValueType, counter_value, gauge_value, Prometheus, Field, mutation, deletion, expiration,
  agent_queue_current, agent_queue_max, current_seq_no, start_seq_no, end_seq_no, persist_seq_no,
  process_latency, dcp_latency, rebalance, lag, total_lag, active_stream, total_members,
  member_number, membership_type, v_bucket_count, v_bucket_range_start, v_bucket_range_end,
  offset_write, offset_write_latency, new_metric_collector,
}

-- What the stream and the checkpoint measure besides, in milliseconds and in documents.
pub record Measured : Type 0 where
  pub process_latency : ℤ
  pub dcp_latency : ℤ
  pub offset_write : ℤ
  pub offset_write_latency : ℤ

-- strconv.FormatBool
abbrev pub format_bool : Bool → List ℕ
format_bool true = codes "true"
format_bool false = codes "false"

-- The integer that is kept as the bit pattern of an int32.
abbrev pub int32 : ℕ → ℤ
int32 n = if ltb n (2 ^ 31) then pos n else negsuc (2 ^ 32 - 1 - n)

abbrev pub or_zero : Option ℕ → ℕ
or_zero none = 0
or_zero (some n) = n

-- A call of MustNewConstMetric or NewInvalidMetric, with the field of the collector it describes by.
pub data Sample (F : Type 0) : Type 0 where
  sample : Field → ValueType → F → List (List ℕ) → Sample F
  invalid : Field → Sample F

-- The lag of an offset behind a highest number.
unfoldable pub lag_of : ℕ → Offset → ℕ
lag_of seq_no offset = if ltb offset.seq_no seq_no then seq_no - offset.seq_no else 0

module _ ⦃cs : CsMap ℕ⦄ (prometheus : Prometheus) where
  open prometheus use {Metric, Float, of_int, plus}

  abbrev pub gauge : Field → ℤ → List (List ℕ) → Sample Float
  gauge field value labels = sample field gauge_value (of_int value) labels

  abbrev pub counter : Field → ℕ → List (List ℕ) → Sample Float
  counter field value labels = sample field counter_value (of_int (pos value)) labels

  -- The callback on an observer.
  abbrev pub observer_samples : ℕ → Observer → List (Sample Float)
  observer_samples vb_id observer =
      counter persist_seq_no observer.persist_seq_no (itoa vb_id ∷ [])
      ∷ counter mutation observer.metrics.total_mutations (itoa vb_id ∷ [])
      ∷ counter deletion observer.metrics.total_deletions (itoa vb_id ∷ [])
      ∷ counter expiration observer.metrics.total_expirations (itoa vb_id ∷ [])
      ∷ []

  abbrev pub queue_samples : List AgentQueue → List (Sample Float)
  queue_samples [] = []
  queue_samples (queue ∷ queues) =
      gauge agent_queue_current queue.current (queue.address ∷ format_bool queue.is_dcp ∷ [])
      ∷ gauge agent_queue_max queue.max (queue.address ∷ format_bool queue.is_dcp ∷ [])
      ∷ queue_samples queues

  abbrev pub offset_samples : ℕ → Offset → List (Sample Float)
  offset_samples vb_id offset =
      gauge current_seq_no (pos offset.seq_no) (itoa vb_id ∷ [])
      ∷ gauge start_seq_no (pos offset.snapshot.start_seq_no) (itoa vb_id ∷ [])
      ∷ gauge end_seq_no (pos offset.snapshot.end_seq_no) (itoa vb_id ∷ [])
      ∷ []

  -- The callback on an offset, after what is sent and the total lag so far. The numbers are those of
  -- GetVBucketSeqNos, or `none` for its error.
  abbrev pub offset_round :
      Option (ConcurrentSwissMap ℕ ℕ)
      → ℕ
      → Offset
      → List (Sample Float) × Float
      → List (Sample Float) × Float
  offset_round none vb_id offset (sent, total) =
      (sent ++ (offset_samples vb_id offset ++ (invalid lag ∷ [])), total)
  offset_round (some seq_nos) vb_id offset (sent, total) =
      let behind = lag_of (or_zero (load seq_nos vb_id)) offset in
      (
        sent ++ (offset_samples vb_id offset ++ (gauge lag (pos behind) (itoa vb_id ∷ []) ∷ [])),
        plus total (of_int (pos behind)),
      )

  abbrev pub rest_samples :
      Stream → VBucketDiscoveryMetric → String → Measured → List (Sample Float)
  rest_samples s discovery type measured =
      gauge active_stream (int32 s.active_streams) []
      ∷ gauge process_latency measured.process_latency []
      ∷ sample dcp_latency counter_value (of_int measured.dcp_latency) []
      ∷ counter rebalance s.rebalance_count []
      ∷ gauge total_members (pos discovery.total_members) []
      ∷ gauge member_number (pos discovery.member_number) []
      ∷ gauge membership_type (pos 0) (codes type ∷ [])
      ∷ gauge v_bucket_count (pos discovery.v_bucket_count) []
      ∷ gauge v_bucket_range_start (pos discovery.v_bucket_range_start) []
      ∷ gauge v_bucket_range_end (pos discovery.v_bucket_range_end) []
      ∷ gauge offset_write measured.offset_write []
      ∷ gauge offset_write_latency measured.offset_write_latency []
      ∷ []

  -- What Collect sends when there are observers, in order.
  unfoldable pub samples :
      Stream
      → ConcurrentSwissMap ℕ Observer
      → Option (ConcurrentSwissMap ℕ ℕ)
      → List AgentQueue
      → VBucketDiscoveryMetric
      → String
      → Measured
      → List (Sample Float)
  unfolding range lag_of
  samples s observers seq_nos queues discovery type measured =
      let of_observers =
        range observers (λ vb_id o sent. (sent ++ observer_samples vb_id o, true)) [] in
      let (of_offsets, total) =
        range s.offsets (λ vb_id o sent. (offset_round seq_nos vb_id o sent, true))
          ([], of_int (pos 0)) in
      of_observers
      ++ (queue_samples queues
          ++ (of_offsets
              ++ (sample total_lag gauge_value total [] ∷ rest_samples s discovery type measured)))

  abbrev pub send : Sample Float → Option Metric
  send (sample field type value labels) =
      prometheus.must_new_const_metric (new_metric_collector prometheus field) type value labels
  send (invalid field) =
      some (prometheus.new_invalid_metric (new_metric_collector prometheus field))

  abbrev pub send_all : List (Sample Float) → Option (List Metric)
  send_all [] = some []
  send_all (x ∷ xs) = send x >>= λ m. send_all xs >>= λ ms. some (m ∷ ms)

  abbrev pub collect_from :
      Stream
      → Option (ConcurrentSwissMap ℕ ℕ)
      → List AgentQueue
      → VBucketDiscoveryMetric
      → String
      → Measured
      → Option (ConcurrentSwissMap ℕ Observer)
      → Option (List Metric)
  collect_from s seq_nos queues discovery type measured none = some []
  collect_from s seq_nos queues discovery type measured (some observers) =
      send_all (samples s observers seq_nos queues discovery type measured)

  -- What is sent to the channel, `none` for a panic.
  unfoldable pub collect :
      Stream
      → Option (ConcurrentSwissMap ℕ ℕ)
      → List AgentQueue
      → VBucketDiscoveryMetric
      → String
      → Measured
      → Option (List Metric)
  collect s seq_nos queues discovery type measured =
      collect_from s seq_nos queues discovery type measured s.observers

  -- Describe by what Collect sends: whether it describes a metric, `none` for a panic.
  abbrev pub describe : Option (List Metric) → Option Bool
  describe none = none
  describe (some []) = some false
  describe (some (m ∷ ms)) = some true
