-- ===== src/Config/Types.antt =====
-- config/dcp.go: the configuration. Durations are nanoseconds; maps are association lists.
use go_dcp.Prelude.{ℕ, ℤ, Bool, Option, List, String}

-- What a field of Go's type any holds, where it is one of the types that sizes are written in.
pub data Size : Type 0 where
  int : ℤ → Size
  uint : ℕ → Size
  text : String → Size
  other : Size

pub record DcpGroupMembership : Type 0 where
  pub config : List (String × String)
  pub type : String
  pub member_number : ℤ
  pub total_members : ℤ
  pub rebalance_delay : ℤ

pub record DcpGroup : Type 0 where
  pub name : String
  pub membership : DcpGroupMembership

pub record DcpListener : Type 0 where
  pub skip_until : Option ℤ

pub record ExternalDcpConfig : Type 0 where
  pub disable_change_streams : Bool

pub record ExternalDcp : Type 0 where
  pub buffer_size : Option Size
  pub mode : String
  pub connection_buffer_size : Option Size
  pub listener : DcpListener
  pub group : DcpGroup
  pub max_queue_size : ℤ
  pub connection_timeout : ℤ
  pub config : ExternalDcpConfig

pub record Api : Type 0 where
  pub disabled : Bool
  pub port : ℤ

pub record Metric : Type 0 where
  pub path : String

pub record Rpc : Type 0 where
  pub port : ℤ

pub record LeaderElection : Type 0 where
  pub config : List (String × String)
  pub type : String
  pub rpc : Rpc
  pub enabled : Bool

pub record Checkpoint : Type 0 where
  pub type : String
  pub auto_reset : String
  pub interval : ℤ
  pub timeout : ℤ

pub record HealthCheck : Type 0 where
  pub disabled : Bool
  pub interval : ℤ
  pub timeout : ℤ

pub record RollbackMitigation : Type 0 where
  pub disabled : Bool
  pub interval : ℤ
  pub config_watch_interval : ℤ

pub record Metadata : Type 0 where
  pub config : List (String × String)
  pub type : String
  pub read_only : Bool

pub record Logging : Type 0 where
  pub level : String

-- `none` is a nil slice or a nil interface.
pub record Dcp : Type 0 where
  pub connection_buffer_size : Option Size
  pub metric : Metric
  pub bucket_name : String
  pub root_ca_path : String
  pub username : String
  pub logging : Logging
  pub scope_name : String
  pub password : String
  pub metadata : Metadata
  pub collection_names : Option (List String)
  pub hosts : List String
  pub checkpoint : Checkpoint
  pub leader_election : LeaderElection
  pub dcp : ExternalDcp
  pub health_check : HealthCheck
  pub rollback_mitigation : RollbackMitigation
  pub api : Api
  pub max_queue_size : ℤ
  pub connection_timeout : ℤ
  pub secure_connection : Bool
  pub debug : Bool
