-- ===== src/Examples/Agents.antt =====
-- The agents of a client, and requests for a membership, for couchbase/client.go and api/api.go.
use go_dcp.Prelude.{
  ℕ, ◌≡◌, refl, Bool, true, false, Option, none, some, List, [], ◌∷◌, String, nat_comparable, pos,
}
use go_dcp.Config.Types.{Dcp, int}
use go_dcp.Config.Views.{is_couchbase_metadata, get_couchbase_metadata}
use go_dcp.Helpers.DataUnits.{resolve_union_int_or_string_value}
use go_dcp.Membership.{Model, new_listening}
use go_dcp.Membership.Waiting.{hear}
use go_dcp.Connections.{
  AgentConfig, Connected, failed, connect, get_metadata, sizes, create_metadata_agent,
  is_dcp_and_metadata_same_host,
}
use go_dcp.Connections.Closing.{ClosesAll, connect-ClosesAll}
use go_dcp.Connections.Requests.{ServiceType, memd_service, mgmt_service, EndpointPing, client_ping}
use go_dcp.Api.Requests.{requests, requests_lem}
use go_dcp.Examples.Fixtures.{nat_table}
use go_dcp.Examples.Configs.{whole, empty_config}

abbrev answers : AgentConfig → Bool
answers c = true

-- The metadata of this configuration is in another bucket of the same hosts.
abbrev two_buckets : Dcp
two_buckets = record empty_config {
  connection_buffer_size = some (int (pos 1000));
  metadata = record { config = ("bucket", "meta") ∷ []; type = "couchbase"; read_only = false };
}

abbrev two_agents : Option Connected
unfolding connect get_metadata sizes create_metadata_agent is_dcp_and_metadata_same_host
    is_couchbase_metadata get_couchbase_metadata resolve_union_int_or_string_value
two_agents = connect answers (λ s. none) whole two_buckets

abbrev or_failed : Option Connected → Connected
or_failed none = failed []
or_failed (some r) = r

connects_twice : connect answers (λ s. none) whole two_buckets ≡ some (or_failed two_agents)
unfolding connect get_metadata sizes create_metadata_agent is_dcp_and_metadata_same_host
    is_couchbase_metadata get_couchbase_metadata resolve_union_int_or_string_value
connects_twice = refl

connect-ClosesAll_example : ClosesAll (or_failed two_agents)
connect-ClosesAll_example =
    connect-ClosesAll answers (λ s. none) whole two_buckets (or_failed two_agents) connects_twice

abbrev model_of : ℕ → Model
model_of n = record { member_number = n; total_members = 4 }

abbrev asked : List Model
asked = model_of 1 ∷ model_of 1 ∷ model_of 2 ∷ []

requests_lem_example :
    ((requests none asked).1 ≡ model_of 1 ∷ model_of 2 ∷ [])
    × ((requests none asked).0 ≡ some (model_of 2))
    × ((hear new_listening (requests none asked).1).info ≡ some (model_of 2))
unfolding new_listening
requests_lem_example = requests_lem none new_listening asked refl

abbrev pinged : String → ServiceType → Option (List EndpointPing)
pinged mgmt memd_service =
    some (record { endpoint = "a:11210"; has_error = false; is_ok = true } ∷ [])
pinged mgmt mgmt_service = some (
    record { endpoint = ""; has_error = true; is_ok = false }
    ∷ record { endpoint = mgmt; has_error = false; is_ok = true }
    ∷ [])

pings :
    client_ping false false (some (pinged "b:8091"))
    ≡ some (record { memd_endpoint = "a:11210"; mgmt_endpoint = "b:8091" })
unfolding client_ping
pings = refl

unhealthy : client_ping false false (some (pinged "")) ≡ none
unfolding client_ping
unhealthy = refl
