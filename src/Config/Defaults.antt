-- ===== src/Config/Defaults.antt =====
-- config/dcp.go: ApplyDefaults. A panic is `none`; a variable of the environment that is not set is
-- the empty text. Floats and the levels that the logger's library knows are parameters.
use go_dcp.Prelude.{
  ℕ, ◌*◌, ◌^◌, ℤ, pos, eq_ℤ, Bool, true, false, Option, none, some, List, [], ◌∷◌, String,
  string_comparable, codes, if◌then◌else◌, ◌>>=◌,
}
use go_dcp.Strconv.{Parsed, valid, no_syntax, out_of_range, atoi}
use go_dcp.Helpers.DataUnits.{Floats, resolve_union_int_or_string_value}
use go_dcp.Config.Types.{Size, int, text, Dcp, DcpGroupMembership}

abbrev pub seconds : ℕ → ℤ
seconds n = pos (n * 10 ^ 9)

abbrev pub is_zero : ℤ → Bool
is_zero n = eq_ℤ n (pos 0)

abbrev pub is_empty : String → Bool
is_empty s = string_comparable.beq s ""

abbrev pub or_number : ℤ → ℤ → ℤ
or_number n default = if is_zero n then default else n

abbrev pub or_text : String → String → String
or_text s default = if is_empty s then default else s

unfoldable pub apply_default_rollback_mitigation : Dcp → Dcp
apply_default_rollback_mitigation c = record c {
  rollback_mitigation = record c.rollback_mitigation {
    interval = or_number c.rollback_mitigation.interval (seconds 1);
    config_watch_interval = or_number c.rollback_mitigation.config_watch_interval (seconds 10);
  };
}

unfoldable pub apply_default_checkpoint : Dcp → Dcp
apply_default_checkpoint c = record c {
  checkpoint = record c.checkpoint {
    interval = or_number c.checkpoint.interval (seconds 60);
    timeout = or_number c.checkpoint.timeout (seconds 60);
    type = or_text c.checkpoint.type "auto";
    auto_reset = or_text c.checkpoint.auto_reset "earliest";
  };
}

unfoldable pub apply_default_health_check : Dcp → Dcp
apply_default_health_check c = record c {
  health_check = record c.health_check {
    interval = or_number c.health_check.interval (seconds 60);
    timeout = or_number c.health_check.timeout (seconds 60);
  };
}

-- A number from the environment, or what is there without one.
abbrev pub or_panic : Parsed ℤ → Option ℤ
or_panic (valid n) = some n
or_panic no_syntax = none
or_panic (out_of_range n) = none

unfoldable pub from_env : String → ℤ → Option ℤ
unfolding atoi
from_env value n = if is_empty value then some n else or_panic (atoi (codes value))

abbrev pub group_membership_defaults : DcpGroupMembership → DcpGroupMembership
group_membership_defaults m = record m {
  rebalance_delay = or_number m.rebalance_delay (seconds 30);
  total_members = or_number m.total_members (pos 1);
  member_number = or_number m.member_number (pos 1);
  type = or_text m.type "couchbase";
}

abbrev pub with_membership : Dcp → DcpGroupMembership → Dcp
with_membership c m = record c {
  dcp = record c.dcp { group = record c.dcp.group { membership = m } };
}

unfoldable pub apply_default_group_membership : (String → String) → Dcp → Option Dcp
unfolding from_env
apply_default_group_membership getenv c =
    let m = group_membership_defaults c.dcp.group.membership in
    do
      total ← from_env (getenv "GO_DCP__DCP_GROUP_MEMBERSHIP_TOTALMEMBERS") m.total_members
      number ← from_env (getenv "GO_DCP__DCP_GROUP_MEMBERSHIP_MEMBERNUMBER") m.member_number
      some (with_membership c (record m { total_members = total; member_number = number }))

unfoldable pub apply_default_connection_timeout : Dcp → Dcp
apply_default_connection_timeout c = record c {
  dcp = record c.dcp { connection_timeout = or_number c.dcp.connection_timeout (seconds 60) };
  connection_timeout = or_number c.connection_timeout (seconds 60);
}

abbrev pub or_default_collection : Option (List String) → Option (List String)
or_default_collection none = some ("_default" ∷ [])
or_default_collection (some names) = some names

unfoldable pub apply_default_collections : Dcp → Dcp
apply_default_collections c = record c {
  collection_names = or_default_collection c.collection_names;
}

unfoldable pub apply_default_scope_name : Dcp → Dcp
apply_default_scope_name c = record c { scope_name = or_text c.scope_name "_default" }

unfoldable pub apply_default_max_queue_size : Dcp → Dcp
apply_default_max_queue_size c = record c { max_queue_size = or_number c.max_queue_size (pos 2048) }

unfoldable pub apply_default_metrics : Dcp → Dcp
apply_default_metrics c = record c {
  metric = record c.metric { path = or_text c.metric.path "/metrics" };
}

unfoldable pub apply_default_api : Dcp → Dcp
apply_default_api c = record c { api = record c.api { port = or_number c.api.port (pos 8080) } }

unfoldable pub apply_default_leader_election : Dcp → Dcp
apply_default_leader_election c = record c {
  leader_election = record c.leader_election {
    type = or_text c.leader_election.type "kubernetes";
    rpc = record c.leader_election.rpc { port = or_number c.leader_election.rpc.port (pos 8081) };
  };
}

unfoldable pub apply_default_metadata : Dcp → Dcp
apply_default_metadata c = record c {
  metadata = record c.metadata { type = or_text c.metadata.type "couchbase" };
}

-- logger.InitDefaultLogger: whether logrus knows the level
unfoldable pub init_default_logger : (String → Bool) → String → Option String
init_default_logger is_level level = if is_level level then some level else none

-- `logs` says whether the program has set its own logger.
unfoldable pub apply_logging : (String → Bool) → Bool → Dcp → Option Dcp
unfolding init_default_logger
apply_logging is_level true c = some c
apply_logging is_level false c = do
  level ← init_default_logger is_level (or_text c.logging.level "info")
  some (record c { logging = record c.logging { level = level } })

module _ (f : Floats) where
  -- A size in bytes, unless there is one.
  unfoldable pub or_size : Option Size → String → Option (Option Size)
  unfolding resolve_union_int_or_string_value
  or_size (some size) default = some (some size)
  or_size none default = do
    bytes ← resolve_union_int_or_string_value f (some (text default))
    some (some (int bytes))

  unfoldable pub apply_default_connection_buffer_size : Dcp → Option Dcp
  unfolding or_size
  apply_default_connection_buffer_size c = do
    size ← or_size c.connection_buffer_size "20mb"
    some (record c { connection_buffer_size = size })

  unfoldable pub apply_default_dcp : Dcp → Option Dcp
  unfolding or_size
  apply_default_dcp c = do
    size ← or_size c.dcp.buffer_size "16mb"
    connection_size ← or_size c.dcp.connection_buffer_size "20mb"
    some (record c {
      dcp = record c.dcp {
        buffer_size = size;
        connection_buffer_size = connection_size;
        max_queue_size = or_number c.dcp.max_queue_size (pos 2048);
      };
    })

  unfoldable pub apply_defaults : (String → String) → (String → Bool) → Bool → Dcp → Option Dcp
  apply_defaults getenv is_level logs c = do
    c ← apply_default_group_membership getenv (
        apply_default_health_check (apply_default_checkpoint (apply_default_rollback_mitigation c)))
    c ←
        apply_default_connection_buffer_size (
          apply_default_scope_name (apply_default_collections (apply_default_connection_timeout c)))
    c ← apply_default_dcp (
        apply_default_leader_election
          (apply_default_api (apply_default_metrics (apply_default_max_queue_size c))))
    apply_logging is_level logs (apply_default_metadata c)
