-- ===== src/ServiceDiscovery/Rounds.antt =====
-- servicediscovery/service_discovery.go and the handlers of rpc_server.go: the rounds of the heartbeat
-- and the monitor, and the calls from other members.
use go_dcp.Prelude.{
  ℕ, ◌+◌, true, false, not, Option, none, some, List, [], ◌∷◌, String, string_comparable, map,
  length, if◌then◌else◌, ◌>>=◌,
}
use go_dcp.Wrapper.{CsMap, load, range}
use go_dcp.Membership.{Model, is_changed}
use go_dcp.ServiceDiscovery.Rpc.{Identity, Network, ping, call_rebalance, new_client}
use go_dcp.ServiceDiscovery.Defs.{
  Service, sort_services, is_failed, ServiceDiscovery, add, remove_each, check_leader,
}

module _ ⦃cs : CsMap String⦄ where
  unfoldable pub check_services : Network → ServiceDiscovery → ServiceDiscovery
  unfolding ping range remove_each
  check_services net s = remove_each s (
      range s.services
        (λ name service names.
          (if is_failed (ping net service.client) then name ∷ names else names, true))
        [])

  -- One round of the heartbeat.
  unfoldable pub heartbeat :
      (ServiceDiscovery → ServiceDiscovery)
      → (ServiceDiscovery → ServiceDiscovery)
      → Network
      → ServiceDiscovery
      → Option ServiceDiscovery
  unfolding check_leader check_services
  heartbeat during_ping during_reconnect net s =
      check_leader during_ping during_reconnect net s >>= λ s'. some (check_services net s')

  unfoldable pub services_of : ServiceDiscovery → List Service
  unfolding range
  services_of s = range s.services (λ name service services. (service ∷ services, true)) []

  unfoldable pub get_all : ServiceDiscovery → List String
  unfolding services_of sort_services
  get_all s = map (λ service. service.name) (sort_services (services_of s))

  -- The models published on the bus.
  unfoldable pub set_info : ServiceDiscovery → ℕ → ℕ → ServiceDiscovery × List Model
  unfolding is_changed
  set_info s member_number total_members =
      let new_info : Model = record {
        member_number = member_number;
        total_members = total_members;
      } in
      if is_changed new_info s.info
      then (record s { info = some new_info }, new_info ∷ [])
      else (s, [])

  abbrev pub tell : Network → Model → String → Option Service → List (String × Model)
  tell net model name none = []
  tell net model name (some service) =
      if is_failed (call_rebalance net service.client) then [] else (name, model) ∷ []

  abbrev pub then_told : List (String × Model) → List (String × Model) → List (String × Model)
  then_told [] later = later
  then_told (t ∷ ts) later = t ∷ later

  -- The loop over the names, from the one with this index; the calls that were answered.
  unfoldable pub tell_each :
      Network → ServiceDiscovery → ℕ → ℕ → List String → List (String × Model)
  unfolding call_rebalance
  tell_each net s total_members index [] = []
  tell_each net s total_members index (name ∷ names) =
      then_told
        (tell net (record { member_number = index + 2; total_members = total_members }) name
          (load s.services name))
        (tell_each net s total_members (index + 1) names)

  -- One round of the monitor: what is published here, and what the members are told. `meanwhile` is
  -- what other goroutines do after the names are collected.
  unfoldable pub monitor :
      (ServiceDiscovery → ServiceDiscovery)
      → Network
      → ServiceDiscovery
      → ServiceDiscovery × List Model × List (String × Model)
  unfolding get_all set_info tell_each
  monitor meanwhile net s =
      if not s.am_i_leader
      then (s, [], [])
      else let names = get_all s in
        let total_members = length names + 1 in
        let (s', published) = set_info s 1 total_members in
        let s'' = meanwhile s' in (s'', published, tell_each net s'' total_members 0 names)

  -- Handler.Register of the leader: the follower is added if it can be connected to.
  unfoldable pub handle_register :
      Network → ℕ → Identity → ServiceDiscovery → Identity → ServiceDiscovery
  unfolding new_client add
  handle_register net address my_identity s follower = elim (new_client net my_identity follower) [
    | none ↦ s
    | some client ↦ add s (record {
      address = address;
      client = client;
      name = follower.name;
      cluster_join_time = follower.cluster_join_time;
    })
  ]

  -- Handler.Rebalance of a follower.
  unfoldable pub handle_rebalance : ServiceDiscovery → Model → ServiceDiscovery × List Model
  unfolding set_info
  handle_rebalance s payload = set_info s payload.member_number payload.total_members

  unfoldable pub start_heartbeat : ServiceDiscovery → ServiceDiscovery
  start_heartbeat s = record s { heartbeat_running = true }

  unfoldable pub stop_heartbeat : ServiceDiscovery → ServiceDiscovery
  stop_heartbeat s = record s { heartbeat_running = false }

  unfoldable pub start_monitor : ServiceDiscovery → ServiceDiscovery
  start_monitor s = record s { monitor_running = true }

  unfoldable pub stop_monitor : ServiceDiscovery → ServiceDiscovery
  stop_monitor s = record s { monitor_running = false }
