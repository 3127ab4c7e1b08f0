-- ===== src/Config/Stages.antt =====
-- The configuration that ApplyDefaults of config/dcp.go leaves, step by step.
use go_dcp.Prelude.{◌*◌, ◌^◌, ◌≡◌, ◌≢◌, refl, ℤ, pos, none, some, String, arith}
use go_dcp.Config.Types.{Size, Dcp}
use go_dcp.Config.Complete.{IsComplete, or_number_kept, or_text_kept, or_default_collection_kept}
use go_dcp.Config.Filled.{or_number_set, or_text_set, or_default_collection_set, numbered}
use go_dcp.Config.Defaults.{
  or_number, apply_default_rollback_mitigation, apply_default_checkpoint,
  apply_default_health_check, apply_default_connection_timeout, apply_default_collections,
  apply_default_scope_name, apply_default_max_queue_size, apply_default_metrics, apply_default_api,
  apply_default_leader_election, apply_default_metadata,
}

some_set : {A : Type 0} (a : A) → some a ≢ none
some_set a e = ground arith

-- What was set stays.
pub record IsKept (c d : Dcp) : Type 0 where
  pub rollback_interval :
      c.rollback_mitigation.interval ≢ pos 0
      → d.rollback_mitigation.interval ≡ c.rollback_mitigation.interval
  pub config_watch_interval :
      c.rollback_mitigation.config_watch_interval ≢ pos 0
      → d.rollback_mitigation.config_watch_interval ≡ c.rollback_mitigation.config_watch_interval
  pub checkpoint_interval :
      c.checkpoint.interval ≢ pos 0 → d.checkpoint.interval ≡ c.checkpoint.interval
  pub checkpoint_timeout :
      c.checkpoint.timeout ≢ pos 0 → d.checkpoint.timeout ≡ c.checkpoint.timeout
  pub checkpoint_type : c.checkpoint.type ≢ "" → d.checkpoint.type ≡ c.checkpoint.type
  pub auto_reset : c.checkpoint.auto_reset ≢ "" → d.checkpoint.auto_reset ≡ c.checkpoint.auto_reset
  pub health_interval :
      c.health_check.interval ≢ pos 0 → d.health_check.interval ≡ c.health_check.interval
  pub health_timeout :
      c.health_check.timeout ≢ pos 0 → d.health_check.timeout ≡ c.health_check.timeout
  pub rebalance_delay :
      c.dcp.group.membership.rebalance_delay ≢ pos 0
      → d.dcp.group.membership.rebalance_delay ≡ c.dcp.group.membership.rebalance_delay
  pub membership_type :
      c.dcp.group.membership.type ≢ "" → d.dcp.group.membership.type ≡ c.dcp.group.membership.type
  pub dcp_timeout :
      c.dcp.connection_timeout ≢ pos 0 → d.dcp.connection_timeout ≡ c.dcp.connection_timeout
  pub timeout : c.connection_timeout ≢ pos 0 → d.connection_timeout ≡ c.connection_timeout
  pub collections : c.collection_names ≢ none → d.collection_names ≡ c.collection_names
  pub scope : c.scope_name ≢ "" → d.scope_name ≡ c.scope_name
  pub buffer : c.connection_buffer_size ≢ none → d.connection_buffer_size ≡ c.connection_buffer_size
  pub queue : c.max_queue_size ≢ pos 0 → d.max_queue_size ≡ c.max_queue_size
  pub path : c.metric.path ≢ "" → d.metric.path ≡ c.metric.path
  pub port : c.api.port ≢ pos 0 → d.api.port ≡ c.api.port
  pub election_type : c.leader_election.type ≢ "" → d.leader_election.type ≡ c.leader_election.type
  pub rpc_port :
      c.leader_election.rpc.port ≢ pos 0 → d.leader_election.rpc.port ≡ c.leader_election.rpc.port
  pub dcp_buffer : c.dcp.buffer_size ≢ none → d.dcp.buffer_size ≡ c.dcp.buffer_size
  pub dcp_connection_buffer :
      c.dcp.connection_buffer_size ≢ none
      → d.dcp.connection_buffer_size ≡ c.dcp.connection_buffer_size
  pub dcp_queue : c.dcp.max_queue_size ≢ pos 0 → d.dcp.max_queue_size ≡ c.dcp.max_queue_size
  pub metadata_type : c.metadata.type ≢ "" → d.metadata.type ≡ c.metadata.type
  pub hosts : d.hosts ≡ c.hosts
  pub bucket_name : d.bucket_name ≡ c.bucket_name
  pub username : d.username ≡ c.username
  pub password : d.password ≡ c.password
  pub group_name : d.dcp.group.name ≡ c.dcp.group.name
  pub mode : d.dcp.mode ≡ c.dcp.mode
  pub membership_config : d.dcp.group.membership.config ≡ c.dcp.group.membership.config
  pub metadata_config : d.metadata.config ≡ c.metadata.config
  pub election_config : d.leader_election.config ≡ c.leader_election.config
  pub rollback_disabled : d.rollback_mitigation.disabled ≡ c.rollback_mitigation.disabled
  pub health_disabled : d.health_check.disabled ≡ c.health_check.disabled
  pub api_disabled : d.api.disabled ≡ c.api.disabled
  pub election_enabled : d.leader_election.enabled ≡ c.leader_election.enabled
  pub read_only : d.metadata.read_only ≡ c.metadata.read_only
  pub root_ca_path : d.root_ca_path ≡ c.root_ca_path
  pub secure_connection : d.secure_connection ≡ c.secure_connection
  pub debug : d.debug ≡ c.debug
  pub skip_until : d.dcp.listener.skip_until ≡ c.dcp.listener.skip_until
  pub disable_change_streams :
      d.dcp.config.disable_change_streams ≡ c.dcp.config.disable_change_streams
  pub logging_level : c.logging.level ≢ "" → d.logging.level ≡ c.logging.level

abbrev pub with_dcp_sizes : Dcp → Size → Size → Dcp
with_dcp_sizes c dcp_size connection_size = record c {
  dcp = record c.dcp {
    buffer_size = some dcp_size;
    connection_buffer_size = some connection_size;
    max_queue_size = or_number c.dcp.max_queue_size (pos 2048);
  };
}

module _ (getenv : String → String) where
  -- The configuration that the steps leave, with the numbers, sizes and level that are found.
  abbrev pub first_steps : Dcp → Dcp
  first_steps c =
      apply_default_health_check (apply_default_checkpoint (apply_default_rollback_mitigation c))

  abbrev pub second_steps : Dcp → ℤ → ℤ → Dcp
  second_steps c total number = apply_default_scope_name (
      apply_default_collections
        (apply_default_connection_timeout (numbered getenv (first_steps c) total number)))

  abbrev pub third_steps : Dcp → ℤ → ℤ → Size → Dcp
  third_steps c total number size = apply_default_leader_election (
      apply_default_api (
        apply_default_metrics (
          apply_default_max_queue_size
            (record (second_steps c total number) { connection_buffer_size = some size }))))

  abbrev pub last_steps : Dcp → ℤ → ℤ → Size → Size → Size → Dcp
  last_steps c total number size dcp_size connection_size =
      apply_default_metadata
        (with_dcp_sizes (third_steps c total number size) dcp_size connection_size)

  abbrev pub filled : Dcp → ℤ → ℤ → Size → Size → Size → String → Dcp
  filled c total number size dcp_size connection_size level =
      let d : Dcp = last_steps c total number size dcp_size connection_size in
      record d { logging = record d.logging { level = level } }

  pub filled-IsComplete :
      (c : Dcp) (total number : ℤ) (size dcp_size connection_size : Size) (level : String)
      → IsComplete (filled c total number size dcp_size connection_size level)
  unfolding apply_default_rollback_mitigation apply_default_checkpoint apply_default_health_check
      apply_default_connection_timeout apply_default_collections apply_default_scope_name
      apply_default_max_queue_size apply_default_metrics apply_default_api
      apply_default_leader_election apply_default_metadata
  filled-IsComplete c total number size dcp_size connection_size level = record {
    rollback_interval = or_number_set c.rollback_mitigation.interval (1 * 10 ^ 9) (omega arith);
    config_watch_interval =
        or_number_set c.rollback_mitigation.config_watch_interval (10 * 10 ^ 9) (omega arith);
    checkpoint_interval = or_number_set c.checkpoint.interval (60 * 10 ^ 9) (omega arith);
    checkpoint_timeout = or_number_set c.checkpoint.timeout (60 * 10 ^ 9) (omega arith);
    checkpoint_type = or_text_set c.checkpoint.type "auto" refl;
    auto_reset = or_text_set c.checkpoint.auto_reset "earliest" refl;
    health_interval = or_number_set c.health_check.interval (60 * 10 ^ 9) (omega arith);
    health_timeout = or_number_set c.health_check.timeout (60 * 10 ^ 9) (omega arith);
    rebalance_delay =
        or_number_set c.dcp.group.membership.rebalance_delay (30 * 10 ^ 9) (omega arith);
    membership_type = or_text_set c.dcp.group.membership.type "couchbase" refl;
    dcp_timeout = or_number_set c.dcp.connection_timeout (60 * 10 ^ 9) (omega arith);
    timeout = or_number_set c.connection_timeout (60 * 10 ^ 9) (omega arith);
    collections = or_default_collection_set c.collection_names;
    scope = or_text_set c.scope_name "_default" refl;
    buffer = some_set _;
    queue = or_number_set c.max_queue_size 2048 (omega arith);
    path = or_text_set c.metric.path "/metrics" refl;
    port = or_number_set c.api.port 8080 (omega arith);
    election_type = or_text_set c.leader_election.type "kubernetes" refl;
    rpc_port = or_number_set c.leader_election.rpc.port 8081 (omega arith);
    dcp_buffer = some_set _;
    dcp_connection_buffer = some_set _;
    dcp_queue = or_number_set c.dcp.max_queue_size 2048 (omega arith);
    metadata_type = or_text_set c.metadata.type "couchbase" refl;
  }

  pub filled-IsKept :
      (c : Dcp) (total number : ℤ) (size dcp_size connection_size : Size) (level : String)
      → (c.connection_buffer_size ≢ none → some size ≡ c.connection_buffer_size)
      → (c.dcp.buffer_size ≢ none → some dcp_size ≡ c.dcp.buffer_size)
      → (c.dcp.connection_buffer_size ≢ none → some connection_size ≡ c.dcp.connection_buffer_size)
      → (c.logging.level ≢ "" → level ≡ c.logging.level)
      → IsKept c (filled c total number size dcp_size connection_size level)
  unfolding apply_default_rollback_mitigation apply_default_checkpoint apply_default_health_check
      apply_default_connection_timeout apply_default_collections apply_default_scope_name
      apply_default_max_queue_size apply_default_metrics apply_default_api
      apply_default_leader_election apply_default_metadata
  filled-IsKept c total number size dcp_size connection_size level kept dcp_kept connection_kept
        level_kept =
      record {
        rollback_interval = λ h. or_number_kept c.rollback_mitigation.interval (pos (1 * 10 ^ 9)) h;
        config_watch_interval =
            λ h. or_number_kept c.rollback_mitigation.config_watch_interval (pos (10 * 10 ^ 9)) h;
        checkpoint_interval = λ h. or_number_kept c.checkpoint.interval (pos (60 * 10 ^ 9)) h;
        checkpoint_timeout = λ h. or_number_kept c.checkpoint.timeout (pos (60 * 10 ^ 9)) h;
        checkpoint_type = λ h. or_text_kept c.checkpoint.type "auto" h;
        auto_reset = λ h. or_text_kept c.checkpoint.auto_reset "earliest" h;
        health_interval = λ h. or_number_kept c.health_check.interval (pos (60 * 10 ^ 9)) h;
        health_timeout = λ h. or_number_kept c.health_check.timeout (pos (60 * 10 ^ 9)) h;
        rebalance_delay =
            λ h. or_number_kept c.dcp.group.membership.rebalance_delay (pos (30 * 10 ^ 9)) h;
        membership_type = λ h. or_text_kept c.dcp.group.membership.type "couchbase" h;
        dcp_timeout = λ h. or_number_kept c.dcp.connection_timeout (pos (60 * 10 ^ 9)) h;
        timeout = λ h. or_number_kept c.connection_timeout (pos (60 * 10 ^ 9)) h;
        collections = λ h. or_default_collection_kept c.collection_names h;
        scope = λ h. or_text_kept c.scope_name "_default" h;
        buffer = kept;
        queue = λ h. or_number_kept c.max_queue_size (pos 2048) h;
        path = λ h. or_text_kept c.metric.path "/metrics" h;
        port = λ h. or_number_kept c.api.port (pos 8080) h;
        election_type = λ h. or_text_kept c.leader_election.type "kubernetes" h;
        rpc_port = λ h. or_number_kept c.leader_election.rpc.port (pos 8081) h;
        dcp_buffer = dcp_kept;
        dcp_connection_buffer = connection_kept;
        dcp_queue = λ h. or_number_kept c.dcp.max_queue_size (pos 2048) h;
        metadata_type = λ h. or_text_kept c.metadata.type "couchbase" h;
        hosts = refl;
        bucket_name = refl;
        username = refl;
        password = refl;
        group_name = refl;
        mode = refl;
        membership_config = refl;
        metadata_config = refl;
        election_config = refl;
        rollback_disabled = refl;
        health_disabled = refl;
        api_disabled = refl;
        election_enabled = refl;
        read_only = refl;
        root_ca_path = refl;
        secure_connection = refl;
        debug = refl;
        skip_until = refl;
        disable_change_streams = refl;
        logging_level = level_kept;
      }
