-- ===== src/Metrics/Descs.antt =====
-- metric/collector.go: the descriptions of the metrics that NewMetricCollector makes.
use go_dcp.Prelude.{ℕ, ℤ, Option, List, [], ◌∷◌, String}

-- The arguments of prometheus.NewDesc; there are no constant labels.
pub record Desc : Type 0 where
  pub fq_name : String
  pub help : String
  pub variable_labels : List String

pub data ValueType : Type 0 where
  counter_value gauge_value : ValueType

-- What is used of Prometheus, and of Go's float64. `none` is the panic of MustNewConstMetric.
pub record Prometheus : Type 1 where
  pub Metric : Type 0
  pub Float : Type 0
  pub of_int : ℤ → Float
  pub plus : Float → Float → Float
  pub build_fq_name : String → String → String → String
  pub must_new_const_metric : Desc → ValueType → Float → List (List ℕ) → Option Metric
  pub new_invalid_metric : Desc → Metric

-- The fields of metricCollector that hold a description.
pub data Field : Type 0 where
  mutation deletion expiration agent_queue_current agent_queue_max current_seq_no : Field
  start_seq_no end_seq_no persist_seq_no process_latency dcp_latency rebalance lag : Field
  total_lag active_stream total_members member_number membership_type v_bucket_count : Field
  v_bucket_range_start v_bucket_range_end offset_write offset_write_latency : Field

module _ (prometheus : Prometheus) where
  abbrev desc : String → String → String → List String → Desc
  desc subsystem name help labels = record {
    fq_name = prometheus.build_fq_name "cbgo" subsystem name;
    help = help;
    variable_labels = labels;
  }

  unfoldable pub new_metric_collector : Field → Desc
  new_metric_collector mutation = desc "mutation" "total" "Mutation count" ("vbId" ∷ [])
  new_metric_collector deletion = desc "deletion" "total" "Deletion count" ("vbId" ∷ [])
  new_metric_collector expiration = desc "expiration" "total" "Expiration count" ("vbId" ∷ [])
  new_metric_collector agent_queue_current =
      desc "agent_queue" "current" "Client queue current" ("address" ∷ "is_dcp" ∷ [])
  new_metric_collector agent_queue_max =
      desc "agent_queue" "max" "Client queue max" ("address" ∷ "is_dcp" ∷ [])
  new_metric_collector current_seq_no = desc "seq_no" "current" "Current seq no" ("vbId" ∷ [])
  new_metric_collector start_seq_no = desc "start_seq_no" "current" "Start seq no" ("vbId" ∷ [])
  new_metric_collector end_seq_no = desc "end_seq_no" "current" "End seq no" ("vbId" ∷ [])
  new_metric_collector persist_seq_no =
      desc "persist_seq_no" "current" "Persist seq no" ("vbId" ∷ [])
  new_metric_collector lag = desc "lag" "current" "Lag" ("vbId" ∷ [])
  new_metric_collector total_lag = desc "total_lag" "current" "Total Lag" []
  new_metric_collector process_latency =
      desc "process_latency_ms" "current" "Average process latency ms" []
  new_metric_collector dcp_latency =
      desc "dcp_latency_ms" "current" "Latest consumed dcp message latency ms" []
  new_metric_collector rebalance = desc "rebalance" "current" "Rebalance count" []
  new_metric_collector active_stream = desc "active_stream" "current" "Active stream" []
  new_metric_collector total_members = desc "total_members" "current" "Total members" []
  new_metric_collector member_number = desc "member_number" "current" "Member number" []
  new_metric_collector membership_type =
      desc "membership_type" "current" "Membership type" ("type" ∷ [])
  new_metric_collector v_bucket_count = desc "vbucket_count" "current" "VBucket count" []
  new_metric_collector v_bucket_range_start =
      desc "vbucket_range_start" "current" "VBucket range start" []
  new_metric_collector v_bucket_range_end =
      desc "vbucket_range_end" "current" "VBucket range end" []
  new_metric_collector offset_write = desc "offset_write" "current" "Average offset write" []
  new_metric_collector offset_write_latency =
      desc "offset_write_latency_ms" "current" "Average offset write latency ms" []
