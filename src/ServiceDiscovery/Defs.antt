-- ===== src/ServiceDiscovery/Defs.antt =====
-- servicediscovery/service_discovery.go and model.go: the services, the leader, and how it is checked.
use go_dcp.Prelude.{
  ℕ, Bool, true, false, not, Option, none, some, List, [], ◌∷◌, String, string_comparable, ltb,
  ◌==◌, if◌then◌else◌, ◌>>=◌,
}
use go_dcp.Wrapper.{CsMap, ConcurrentSwissMap, create, delete, load, store, range}
use go_dcp.Membership.{Model}
use go_dcp.ServiceDiscovery.Rpc.{Network, Client, connect, ping, register}

-- `address` stands for the pointer: two services are the same object when it is the same.
pub record Service : Type 0 where
  pub address : ℕ
  pub client : Client
  pub name : String
  pub cluster_join_time : ℕ

-- ServiceBy.Sort with the order of GetAll. sort.Sort may leave services of one join time in any
-- order, as may the walk that collects them.
unfoldable pub place : Service → List Service → List Service
place s [] = s ∷ []
place s (x ∷ xs) =
    let later = place s xs in
    if ltb x.cluster_join_time s.cluster_join_time then x ∷ later else s ∷ x ∷ xs

unfoldable pub sort_services : List Service → List Service
unfolding place
sort_services [] = []
sort_services (s ∷ ss) = place s (sort_services ss)

abbrev pub is_failed : Option String → Bool
is_failed none = false
is_failed (some err) = true

module _ ⦃cs : CsMap String⦄ where
  pub record ServiceDiscovery : Type 0 where
    pub leader_service : Option Service
    pub services : ConcurrentSwissMap String Service
    pub info : Option Model
    pub heartbeat_running : Bool
    pub monitor_running : Bool
    pub am_i_leader : Bool

  unfoldable pub new_service_discovery : ServiceDiscovery
  new_service_discovery = record {
    leader_service = none;
    services = create Service 0;
    info = none;
    heartbeat_running = false;
    monitor_running = false;
    am_i_leader = false;
  }

  unfoldable pub add : ServiceDiscovery → Service → ServiceDiscovery
  add s service = record s { services = store s.services service.name service }

  -- The client of the service is closed, and is no longer reachable from here.
  unfoldable pub remove : ServiceDiscovery → String → ServiceDiscovery
  remove s name = elim (load s.services name) [
    | none ↦ s
    | some service ↦ record s { services = delete s.services name }
  ]

  unfoldable pub remove_each : ServiceDiscovery → List String → ServiceDiscovery
  unfolding remove
  remove_each s [] = s
  remove_each s (name ∷ names) = remove_each (remove s name) names

  unfoldable pub remove_all : ServiceDiscovery → ServiceDiscovery
  unfolding remove_each range
  remove_all s = remove_each s (range s.services (λ name service names. (name ∷ names, true)) [])

  unfoldable pub be_leader : ServiceDiscovery → ServiceDiscovery
  be_leader s = record s { am_i_leader = true }

  unfoldable pub dont_be_leader : ServiceDiscovery → ServiceDiscovery
  dont_be_leader s = record s { am_i_leader = false }

  unfoldable pub assign_leader : ServiceDiscovery → Service → ServiceDiscovery
  assign_leader s leader_service = record s { leader_service = some leader_service }

  unfoldable pub remove_leader : ServiceDiscovery → ServiceDiscovery
  remove_leader s = record s { leader_service = none }

  abbrev pub with_client : Service → Client → Service
  with_client service client = record service { client = client }

  abbrev pub registered_again :
      Network
      → ServiceDiscovery
      → Option String
      → Option Service
      → Option (ServiceDiscovery × Option String)
  registered_again net s (some err) leader = some (s, some err)
  registered_again net s none none = none
  registered_again net s none (some leader) = some (s, register net leader.client)

  abbrev pub reconnected :
      (ServiceDiscovery → ServiceDiscovery)
      → Network
      → ServiceDiscovery
      → Service
      → Client × Option String
      → Option (ServiceDiscovery × Option String)
  reconnected meanwhile net s leader (client, err) =
      let s' = meanwhile (record s { leader_service = some (with_client leader client) }) in
      registered_again net s' err s'.leader_service

  -- `meanwhile` is what other goroutines do while Reconnect dials. The leader is read again for
  -- Register, which panics if it is gone: `none`.
  unfoldable pub reassign_leader :
      (ServiceDiscovery → ServiceDiscovery)
      → Network
      → ServiceDiscovery
      → Option (ServiceDiscovery × Option String)
  unfolding connect register
  reassign_leader meanwhile net s = by_leader s.leader_service
    where
      by_leader : Option Service → Option (ServiceDiscovery × Option String)
      by_leader none = some (s, some "leader is not assigned")
      by_leader (some leader) = reconnected meanwhile net s leader (connect net leader.client)

  abbrev pub same_object : Option Service → Option Service → Bool
  same_object none none = true
  same_object none (some b) = false
  same_object (some a) none = false
  same_object (some a) (some b) = a.address == b.address

  -- The leader that was pinged is dropped, unless another one has been assigned.
  abbrev pub drop_leader : Option Service → ServiceDiscovery × Option String → ServiceDiscovery
  drop_leader temp (s, none) = s
  drop_leader temp (s, some err) =
      if not (same_object temp s.leader_service) then s else remove_leader s

  -- `check` answers the ping of the leader; the two arguments before it are what other goroutines do
  -- during the ping and the reconnection.
  unfoldable pub check_leader :
      (ServiceDiscovery → ServiceDiscovery)
      → (ServiceDiscovery → ServiceDiscovery)
      → Network
      → ServiceDiscovery
      → Option ServiceDiscovery
  unfolding ping reassign_leader remove_leader
  check_leader during_ping during_reconnect net s = by_leader s.leader_service
    where
      by_ping : Bool → ServiceDiscovery → Option ServiceDiscovery
      by_ping false s' = some s'
      by_ping true s' =
          reassign_leader during_reconnect net s' >>= λ r. some (drop_leader s'.leader_service r)

      by_leader : Option Service → Option ServiceDiscovery
      by_leader none = some s
      by_leader (some leader) = by_ping (is_failed (ping net leader.client)) (during_ping s)
