-- ===== src/Program/Creation.antt =====
-- dcp.go: newDcp and its callers, and the bucket of couchbase/http_client.go.
use go_dcp.Prelude.{
  ℕ, Bool, true, false, not, ◌&&◌, ◌||◌, Option, none, some, List, String, nat_comparable,
  string_comparable, if◌then◌else◌, ◌>>=◌,
}
use go_dcp.Helpers.DataUnits.{Floats}
use go_dcp.Config.Types.{Dcp}
use go_dcp.Config.Defaults.{apply_defaults}
use go_dcp.Version.{
  Version, NodeVersion, is_version, is_not, equal, higher, srv_ver_650, srv_ver_720,
  node_version_from_string,
}

pub record BucketInfo : Type 0 where
  pub bucket_type : String
  pub storage_backend : String

unfoldable pub is_ephemeral : BucketInfo → Bool
is_ephemeral b = string_comparable.beq b.bucket_type "ephemeral"

unfoldable pub is_magma : BucketInfo → Bool
is_magma b = string_comparable.beq b.storage_backend "magma"

-- What the server answers: whether the connections are made, its version and its bucket.
pub record Server : Type 0 where
  pub connects : Bool
  pub answers_pings : Bool
  pub implementation_version : Option (List ℕ)
  pub bucket_info : Option BucketInfo
  pub connects_dcp : Bool → Bool → Bool

unfoldable pub get_version : Server → Option Version
unfolding node_version_from_string
get_version server =
    server.implementation_version >>= λ text. parsed (node_version_from_string text)
  where
    parsed : NodeVersion → Option Version
    parsed (is_version v) = some v
    parsed (is_not part) = none

abbrev pub at_least : Version → Version → Bool
at_least v limit = higher v limit || equal v limit

unfoldable pub use_expiry_opcode : Version → Bool
unfolding higher equal
use_expiry_opcode version = if at_least version srv_ver_650 then true else false

unfoldable pub use_change_streams : BucketInfo → Version → Bool
unfolding is_magma higher equal
use_change_streams bucket_info version =
    if is_magma bucket_info && at_least version srv_ver_720 then true else false

-- The client as it is made, with the features that it connected with.
pub record Created : Type 0 where
  pub config : Dcp
  pub version : Version
  pub bucket_info : BucketInfo
  pub expiry_opcode : Bool
  pub change_streams : Bool

-- What newDcp comes to: a client, an error that it returns, or a panic.
pub data NewDcp : Type 0 where
  created : Created → NewDcp
  error : NewDcp
  panics : NewDcp

abbrev pub or_error {ℓ} : {A : Type ℓ} → Option A → (A → NewDcp) → NewDcp
or_error none f = error
or_error (some a) f = f a

abbrev pub connected : Server → Dcp → Version → BucketInfo → NewDcp
connected server config version bucket_info =
    let expiry = use_expiry_opcode version in
    let changes = use_change_streams bucket_info version in
    if server.connects_dcp expiry changes
    then created (record {
      config = config;
      version = version;
      bucket_info = bucket_info;
      expiry_opcode = expiry;
      change_streams = changes;
    })
    else error

abbrev pub reached : Server → Dcp → NewDcp
reached server config =
    if not server.connects
    then error
    else if not server.answers_pings
    then error
    else or_error (get_version server) λ version.
      or_error server.bucket_info λ bucket_info. connected server config version bucket_info

abbrev pub or_panics : Option Dcp → (Dcp → NewDcp) → NewDcp
or_panics none f = panics
or_panics (some config) f = f config

unfoldable pub new_dcp : Floats → (String → String) → (String → Bool) → Bool → Server → Dcp → NewDcp
new_dcp f getenv is_level logs server config =
    or_panics (apply_defaults f getenv is_level logs config) (reached server)

-- What NewExtendedDcp and NewDcp are called with. A path is read by newDcpConfig.
pub data Source : Type 0 where
  configuration : Dcp → Source
  path : String → Source
  anything : Source

unfoldable pub new_extended_dcp : (String → Option Dcp) → (Dcp → NewDcp) → Source → NewDcp
new_extended_dcp new_dcp_config create (configuration config) = create config
new_extended_dcp new_dcp_config create (path file) = or_error (new_dcp_config file) create
new_extended_dcp new_dcp_config create anything = error
