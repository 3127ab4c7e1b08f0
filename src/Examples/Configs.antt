-- ===== src/Examples/Configs.antt =====
-- Configurations, sizes, and the pods of a set, for config/dcp.go, helpers/data_units.go and
-- kubernetes/stateful_set_membership.go.
use go_dcp.Prelude.{
  ℕ, ◌≡◌, ◌<◌, ◌*◌, refl, pos, negsuc, Bool, false, none, some, [], ◌∷◌, String, string_comparable,
  codes, arith,
}
use go_dcp.Strconv.{itoa, unsigned, max_int}
use go_dcp.Strconv.Decimal.{unsigned-itoa}
use go_dcp.Helpers.DataUnits.{Floats, IsExact, resolve_union_int_or_string_value}
use go_dcp.Config.Types.{Dcp, text}
use go_dcp.Config.Defaults.{seconds}
use go_dcp.Config.Views.{get_couchbase_membership, get_file_metadata}
use go_dcp.Config.Expiry.{get_couchbase_membership_lem}
use go_dcp.Kubernetes.{new_stateful_set_membership}
use go_dcp.Kubernetes.Pods.{Takes, pod_name, pods_stream_once}
use go_dcp.Examples.Members.{ten_buckets}

-- Whole numbers in place of floats
abbrev pub whole : Floats
whole = record { Float = ℕ; parse = unsigned; of_nat = λ n. n; times = λ m n. m * n; to_int = pos }

abbrev pub whole-IsExact : IsExact whole
whole-IsExact = record {
  parse-itoa = λ n h. unsigned-itoa n;
  times-of_nat = λ m n h. refl;
  to_int-of_nat = λ n h. refl;
}

abbrev pub empty_config : Dcp
empty_config = record {
  connection_buffer_size = none;
  metric = record { path = "" };
  bucket_name = "orders";
  root_ca_path = "";
  username = "user";
  logging = record { level = "" };
  scope_name = "";
  password = "secret";
  metadata = record { config = []; type = ""; read_only = false };
  collection_names = none;
  hosts = "localhost" ∷ [];
  checkpoint = record { type = ""; auto_reset = ""; interval = pos 0; timeout = pos 0 };
  leader_election = record {
    config = [];
    type = "";
    rpc = record { port = pos 0 };
    enabled = false;
  };
  dcp = record {
    buffer_size = none;
    mode = "";
    connection_buffer_size = some (text "5mb");
    listener = record { skip_until = none };
    group = record {
      name = "group";
      membership = record {
        config = ("expirySeconds", "90") ∷ [];
        type = "static";
        member_number = pos 0;
        total_members = pos 3;
        rebalance_delay = pos 0;
      };
    };
    max_queue_size = pos 0;
    connection_timeout = pos 0;
    config = record { disable_change_streams = false };
  };
  health_check = record { disabled = false; interval = pos 0; timeout = pos 0 };
  rollback_mitigation = record {
    disabled = false;
    interval = pos 0;
    config_watch_interval = pos 0;
  };
  api = record { disabled = false; port = pos 0 };
  max_queue_size = pos 0;
  connection_timeout = pos 0;
  secure_connection = false;
  debug = false;
}

abbrev pub no_env : String → String
no_env name = ""

abbrev pub is_info : String → Bool
is_info level = string_comparable.beq level "info"

plain_number : resolve_union_int_or_string_value whole (some (text "-20")) ≡ some (negsuc 19)
unfolding resolve_union_int_or_string_value
plain_number = refl

bytes_refused : resolve_union_int_or_string_value whole (some (text "100B")) ≡ none
unfolding resolve_union_int_or_string_value
bytes_refused = refl

no_file_name : get_file_metadata empty_config ≡ none
unfolding get_file_metadata
no_file_name = refl

get_couchbase_membership_lem_example :
    get_couchbase_membership (λ s. none) empty_config
    ≡ some (record {
      expiry_seconds = 90;
      heartbeat_interval = seconds 10;
      heartbeat_tolerance_duration = seconds 60;
      monitor_interval = seconds 30;
      timeout = seconds 30;
    })
unfolding itoa
get_couchbase_membership_lem_example =
    get_couchbase_membership_lem (λ s. none) empty_config "90" 90 (seconds 10) (seconds 60)
      (seconds 30) (seconds 30) refl refl refl refl refl refl

pods_stream_once_example :
    (k : ℕ) × (k < 3)
    × Takes ten_buckets
        (new_stateful_set_membership (some (pod_name (codes "dcp") k)) empty_config)
        4
    × ((l : ℕ)
        → l < max_int
        → Takes ten_buckets
            (new_stateful_set_membership (some (pod_name (codes "dcp") l)) empty_config)
            4
        → l ≡ k)
pods_stream_once_example =
    pods_stream_once empty_config (codes "dcp") 3 ten_buckets 4 refl (omega arith) (omega arith)
      (omega arith) (omega arith)
