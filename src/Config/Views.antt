-- ===== src/Config/Views.antt =====
-- config/dcp.go: what is read from the maps of the configuration. A panic is `none`. How a text is
-- read as a duration is a parameter, and so are floats.
use go_dcp.Prelude.{
  ℕ, ◌^◌, ℤ, pos, negsuc, ◌-◌, ◌%◌, Bool, Option, none, some, List, String, string_comparable,
  lookup, codes, map, if◌then◌else◌, ◌>>=◌,
}
use go_dcp.Strconv.{Parsed, valid, no_syntax, out_of_range, parse_uint, parse_bool, split}
use go_dcp.Helpers.DataUnits.{Floats, resolve_union_int_or_string_value}
use go_dcp.Config.Types.{text, Dcp}
use go_dcp.Config.Defaults.{seconds, is_empty}

abbrev pub has_text : String → String → Bool
has_text s t = string_comparable.beq s t

unfoldable pub is_couchbase_metadata : Dcp → Bool
is_couchbase_metadata c = has_text c.metadata.type "couchbase"

unfoldable pub is_file_metadata : Dcp → Bool
is_file_metadata c = has_text c.metadata.type "file"

unfoldable pub is_dcp_mode_finite : Dcp → Bool
is_dcp_mode_finite c = has_text c.dcp.mode "finite"

unfoldable pub get_file_metadata : Dcp → Option String
get_file_metadata c = do
  file_name ← lookup "fileName" c.metadata.config
  if is_empty file_name then none else some file_name

-- What a reader makes of the value of a key, or the default where the key is missing.
abbrev pub read_or {ℓ} : {A : Type ℓ} → (String → Option A) → Option String → A → Option A
read_or read none default = some default
read_or read (some value) default = read value

pub record CouchbaseMembership : Type 0 where
  pub expiry_seconds : ℕ
  pub heartbeat_interval : ℤ
  pub heartbeat_tolerance_duration : ℤ
  pub monitor_interval : ℤ
  pub timeout : ℤ

abbrev pub uint32 : ℕ → ℕ
uint32 n = n % 2 ^ 32

-- strconv.ParseUint with 32 bits
abbrev pub parsed_seconds : Parsed ℕ → Option ℕ
parsed_seconds (valid n) = some (uint32 n)
parsed_seconds no_syntax = none
parsed_seconds (out_of_range n) = none

unfoldable pub read_seconds : String → Option ℕ
unfolding parse_uint
read_seconds value = parsed_seconds (parse_uint (2 ^ 32) (codes value))

pub record KubernetesLeaderElector : Type 0 where
  pub lease_lock_name : String
  pub lease_lock_namespace : String
  pub lease_duration : ℤ
  pub renew_deadline : ℤ
  pub retry_period : ℤ

pub record CouchbaseMetadata : Type 0 where
  pub username : String
  pub password : String
  pub bucket : String
  pub scope : String
  pub collection : String
  pub root_ca_path : String
  pub hosts : List (List ℕ)
  pub max_queue_size : ℤ
  pub connection_buffer_size : ℕ
  pub connection_timeout : ℤ
  pub secure_connection : Bool

-- uint(n) of a signed number of 64 bits
abbrev pub uint64 : ℤ → ℕ
uint64 (pos n) = n % 2 ^ 64
uint64 (negsuc n) = (2 ^ 64 - 1 - n) % 2 ^ 64

module _ (parse_duration : String → Option ℤ) where
  unfoldable pub get_couchbase_membership : Dcp → Option CouchbaseMembership
  unfolding read_seconds
  get_couchbase_membership c =
      let config = c.dcp.group.membership.config in
      do
        expiry ← read_or read_seconds (lookup "expirySeconds" config) 120
        heartbeat ← read_or parse_duration (lookup "heartbeatInterval" config) (seconds 10)
        tolerance ← read_or parse_duration (lookup "heartbeatToleranceDuration" config) (seconds 60)
        monitor ← read_or parse_duration (lookup "monitorInterval" config) (seconds 30)
        timeout ← read_or parse_duration (lookup "timeout" config) (seconds 30)
        some (record {
          expiry_seconds = expiry;
          heartbeat_interval = heartbeat;
          heartbeat_tolerance_duration = tolerance;
          monitor_interval = monitor;
          timeout = timeout;
        })

  unfoldable pub get_kubernetes_leader_elector : Dcp → Option KubernetesLeaderElector
  get_kubernetes_leader_elector c =
      let config = c.leader_election.config in
      do
        name ← lookup "leaseLockName" config
        namespace ← lookup "leaseLockNamespace" config
        duration ← read_or parse_duration (lookup "leaseDuration" config) (seconds 8)
        deadline ← read_or parse_duration (lookup "renewDeadline" config) (seconds 5)
        period ← read_or parse_duration (lookup "retryPeriod" config) (seconds 1)
        some (record {
          lease_lock_name = name;
          lease_lock_namespace = namespace;
          lease_duration = duration;
          renew_deadline = deadline;
          retry_period = period;
        })

  module _ (f : Floats) where
    abbrev pub read_size : String → Option ℤ
    unfolding resolve_union_int_or_string_value
    read_size value = resolve_union_int_or_string_value f (some (text value))

    abbrev pub read_hosts : String → Option (List (List ℕ))
    unfolding split
    read_hosts value = some (split b',' (codes value))

    unfoldable pub get_couchbase_metadata : Dcp → Option CouchbaseMetadata
    unfolding resolve_union_int_or_string_value parse_bool
    get_couchbase_metadata c =
        let config = c.metadata.config in
        do
          hosts ← read_or read_hosts (lookup "hosts" config) (map codes c.hosts)
          username ← read_or some (lookup "username" config) c.username
          password ← read_or some (lookup "password" config) c.password
          bucket ← read_or some (lookup "bucket" config) c.bucket_name
          scope ← read_or some (lookup "scope" config) "_default"
          collection ← read_or some (lookup "collection" config) "_default"
          queue ← read_or read_size (lookup "maxQueueSize" config) (pos 2048)
          buffer ← read_or read_size (lookup "connectionBufferSize" config) (pos 5242880)
          timeout ← read_or parse_duration (lookup "connectionTimeout" config) (seconds 60)
          secure ← read_or parse_bool (lookup "secureConnection" config) c.secure_connection
          root_ca ← read_or some (lookup "rootCAPath" config) c.root_ca_path
          some (record {
            username = username;
            password = password;
            bucket = bucket;
            scope = scope;
            collection = collection;
            root_ca_path = root_ca;
            hosts = hosts;
            max_queue_size = queue;
            connection_buffer_size = uint64 buffer;
            connection_timeout = timeout;
            secure_connection = secure;
          })
