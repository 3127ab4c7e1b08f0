-- ===== src/Connections/Requests.antt =====
-- couchbase/client.go and couchbase/async_op.go: pings, the ids of collections and the number of
-- vBuckets. What gocbcore answers is an argument.
use go_dcp.Prelude.{
  ℕ, Bool, true, ◌&&◌, ◌||◌, not, Option, none, some, List, [], ◌∷◌, String, nat_comparable,
  string_comparable, insert, if◌then◌else◌, ◌>>=◌,
}

-- asyncOp.Wait: whether the operation was not even begun, and whether its context is done when the
-- wait is over, after a signal or a cancellation. The answer is whether there is an error.
unfoldable pub wait : Bool → Bool → Bool
wait failed_at_once context_done = if failed_at_once then true else context_done

pub data ServiceType : Type 0 where
  memd_service mgmt_service : ServiceType

pub record EndpointPing : Type 0 where
  pub endpoint : String
  pub has_error : Bool
  pub is_ok : Bool

-- The results of a ping for each of the two services, `none` where the map has none.
abbrev pub PingResult : Type 0
PingResult = ServiceType → Option (List EndpointPing)

abbrev pub first_healthy : List EndpointPing → String
first_healthy [] = ""
first_healthy (r ∷ rs) =
    let rest = first_healthy rs in if not r.has_error && r.is_ok then r.endpoint else rest

abbrev pub or_nothing : Option (List EndpointPing) → String
or_nothing none = ""
or_nothing (some results) = first_healthy results

unfoldable pub get_service_endpoint : PingResult → ServiceType → String
get_service_endpoint result service_type = or_nothing (result service_type)

pub record Endpoints : Type 0 where
  pub memd_endpoint : String
  pub mgmt_endpoint : String

abbrev pub is_empty : String → Bool
is_empty s = string_comparable.beq s ""

-- What the callback of Ping is called with: a result, or `none` for an error. The answer is `none`
-- for an error, also of the wait.
abbrev pub after_ping : Option PingResult → Option Endpoints
unfolding get_service_endpoint
after_ping none = none
after_ping (some result) =
    let memd = get_service_endpoint result memd_service in
    let mgmt = get_service_endpoint result mgmt_service in
    if is_empty memd || is_empty mgmt
    then none
    else some (record { memd_endpoint = memd; mgmt_endpoint = mgmt })

unfoldable pub client_ping : Bool → Bool → Option PingResult → Option Endpoints
unfolding wait get_service_endpoint
client_ping failed_at_once context_done answer =
    if wait failed_at_once context_done then none else after_ping answer

-- `get_collection_id` is the id of a collection in the scope, or `none` for an error. The map that is
-- returned has one name for each id.
abbrev pub gather_ids :
    (String → Option ℕ) → List String → List (ℕ × String) → Option (List (ℕ × String))
gather_ids get_collection_id [] ids = some ids
gather_ids get_collection_id (name ∷ names) ids =
    get_collection_id name >>= λ id. gather_ids get_collection_id names (insert id name ids)

unfoldable pub get_collection_ids :
    Bool → (String → Option ℕ) → List String → Option (List (ℕ × String))
get_collection_ids has_collections_support get_collection_id names =
    if has_collections_support then gather_ids get_collection_id names [] else some []

-- The panics of GetNumVBuckets are `none`: on a snapshot that is not there, or without the number.
unfoldable pub get_num_v_buckets : Option (Option ℕ) → Option ℕ
get_num_v_buckets snapshot = snapshot >>= λ count. count
