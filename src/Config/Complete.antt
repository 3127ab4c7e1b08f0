-- ===== src/Config/Complete.antt =====
-- What the defaults of config/dcp.go leave, and that they change nothing a second time.
use go_dcp.Prelude.{
  ◌≡◌, ◌≢◌, refl, inl, inr, ℤ, pos, eq_ℤ_iff, Option, none, some, List, String, string_comparable,
  Bool-cases,
}
use go_dcp.Config.Types.{Dcp}
use go_dcp.Config.Defaults.{
  is_zero, is_empty, or_number, or_text, or_default_collection, seconds,
  apply_default_rollback_mitigation, apply_default_checkpoint, apply_default_health_check,
  apply_default_connection_timeout, apply_default_collections, apply_default_scope_name,
  apply_default_max_queue_size, apply_default_metrics, apply_default_api,
  apply_default_leader_election, apply_default_metadata,
}

-- Every field that has a default is set.
pub record IsComplete (c : Dcp) : Type 0 where
  pub rollback_interval : c.rollback_mitigation.interval ≢ pos 0
  pub config_watch_interval : c.rollback_mitigation.config_watch_interval ≢ pos 0
  pub checkpoint_interval : c.checkpoint.interval ≢ pos 0
  pub checkpoint_timeout : c.checkpoint.timeout ≢ pos 0
  pub checkpoint_type : c.checkpoint.type ≢ ""
  pub auto_reset : c.checkpoint.auto_reset ≢ ""
  pub health_interval : c.health_check.interval ≢ pos 0
  pub health_timeout : c.health_check.timeout ≢ pos 0
  pub rebalance_delay : c.dcp.group.membership.rebalance_delay ≢ pos 0
  pub membership_type : c.dcp.group.membership.type ≢ ""
  pub dcp_timeout : c.dcp.connection_timeout ≢ pos 0
  pub timeout : c.connection_timeout ≢ pos 0
  pub collections : c.collection_names ≢ none
  pub scope : c.scope_name ≢ ""
  pub buffer : c.connection_buffer_size ≢ none
  pub queue : c.max_queue_size ≢ pos 0
  pub path : c.metric.path ≢ ""
  pub port : c.api.port ≢ pos 0
  pub election_type : c.leader_election.type ≢ ""
  pub rpc_port : c.leader_election.rpc.port ≢ pos 0
  pub dcp_buffer : c.dcp.buffer_size ≢ none
  pub dcp_connection_buffer : c.dcp.connection_buffer_size ≢ none
  pub dcp_queue : c.dcp.max_queue_size ≢ pos 0
  pub metadata_type : c.metadata.type ≢ ""

pub or_number_kept : (n d : ℤ) → n ≢ pos 0 → or_number n d ≡ n
or_number_kept n d h = elim (Bool-cases (is_zero n)) [
  | inl zero ↦ absurd (h ((eq_ℤ_iff n (pos 0)).0 zero))
  | inr set ↦ rw set refl
]

pub or_text_kept : (s d : String) → s ≢ "" → or_text s d ≡ s
or_text_kept s d h = elim (Bool-cases (is_empty s)) [
  | inl empty ↦ absurd (h ((string_comparable.beq_iff s "").0 empty))
  | inr set ↦ rw set refl
]

pub apply_default_rollback_mitigation_kept :
    (c : Dcp) → IsComplete c → apply_default_rollback_mitigation c ≡ c
unfolding apply_default_rollback_mitigation
apply_default_rollback_mitigation_kept c h =
    rw
      (
        or_number_kept _ (seconds 1) h.rollback_interval,
        or_number_kept _ (seconds 10) h.config_watch_interval,
      )
      refl

pub apply_default_checkpoint_kept : (c : Dcp) → IsComplete c → apply_default_checkpoint c ≡ c
unfolding apply_default_checkpoint
apply_default_checkpoint_kept c h =
    rw
      (
        or_number_kept _ (seconds 60) h.checkpoint_interval,
        or_number_kept _ (seconds 60) h.checkpoint_timeout,
        or_text_kept _ "auto" h.checkpoint_type,
        or_text_kept _ "earliest" h.auto_reset,
      )
      refl

pub apply_default_health_check_kept : (c : Dcp) → IsComplete c → apply_default_health_check c ≡ c
unfolding apply_default_health_check
apply_default_health_check_kept c h =
    rw
      (
        or_number_kept _ (seconds 60) h.health_interval,
        or_number_kept _ (seconds 60) h.health_timeout,
      )
      refl

pub apply_default_connection_timeout_kept :
    (c : Dcp) → IsComplete c → apply_default_connection_timeout c ≡ c
unfolding apply_default_connection_timeout
apply_default_connection_timeout_kept c h =
    rw (or_number_kept _ (seconds 60) h.dcp_timeout, or_number_kept _ (seconds 60) h.timeout) refl

pub apply_default_scope_name_kept : (c : Dcp) → IsComplete c → apply_default_scope_name c ≡ c
unfolding apply_default_scope_name
apply_default_scope_name_kept c h = rw (or_text_kept _ "_default" h.scope) refl

pub apply_default_max_queue_size_kept :
    (c : Dcp) → IsComplete c → apply_default_max_queue_size c ≡ c
unfolding apply_default_max_queue_size
apply_default_max_queue_size_kept c h = rw (or_number_kept _ (pos 2048) h.queue) refl

pub apply_default_metrics_kept : (c : Dcp) → IsComplete c → apply_default_metrics c ≡ c
unfolding apply_default_metrics
apply_default_metrics_kept c h = rw (or_text_kept _ "/metrics" h.path) refl

pub apply_default_api_kept : (c : Dcp) → IsComplete c → apply_default_api c ≡ c
unfolding apply_default_api
apply_default_api_kept c h = rw (or_number_kept _ (pos 8080) h.port) refl

pub apply_default_leader_election_kept :
    (c : Dcp) → IsComplete c → apply_default_leader_election c ≡ c
unfolding apply_default_leader_election
apply_default_leader_election_kept c h =
    rw (or_text_kept _ "kubernetes" h.election_type, or_number_kept _ (pos 8081) h.rpc_port) refl

pub apply_default_metadata_kept : (c : Dcp) → IsComplete c → apply_default_metadata c ≡ c
unfolding apply_default_metadata
apply_default_metadata_kept c h = rw (or_text_kept _ "couchbase" h.metadata_type) refl

pub or_default_collection_kept :
    (names : Option (List String)) → names ≢ none → or_default_collection names ≡ names
or_default_collection_kept none h = absurd (h refl)
or_default_collection_kept (some names) h = refl

pub apply_default_collections_kept : (c : Dcp) → IsComplete c → apply_default_collections c ≡ c
unfolding apply_default_collections
apply_default_collections_kept c h = rw (or_default_collection_kept _ h.collections) refl
