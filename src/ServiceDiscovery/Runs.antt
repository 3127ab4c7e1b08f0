-- ===== src/ServiceDiscovery/Runs.antt =====
-- Runs of a member: elections, registrations, heartbeats and monitor rounds in any order.
use go_dcp.Prelude.{ℕ, ◌≡◌, inl, Option, none, some, String, string_comparable}
use go_dcp.Wrapper.{CsMap}
use go_dcp.Membership.{Model}
use go_dcp.ServiceDiscovery.Rpc.{Identity, Network}
use go_dcp.ServiceDiscovery.Rounds.{heartbeat, monitor, handle_register, handle_rebalance}
use go_dcp.ServiceDiscovery.Defs.{Service, ServiceDiscovery, new_service_discovery}
use go_dcp.ServiceDiscovery.Election.{on_become_leader, on_resign_leader, on_become_follower}
use go_dcp.ServiceDiscovery.Roles.{IsConsistent, IsReachable, new-IsConsistent}
use go_dcp.ServiceDiscovery.Steps.{
  Follows, heartbeat-IsConsistent, set_info-IsConsistent, monitor-IsConsistent,
  handle_register-IsConsistent, on_become_leader-IsConsistent, on_resign_leader-IsConsistent,
  on_become_follower-IsFollower,
}

module _ ⦃cs : CsMap String⦄ where
  -- What happens to the service discovery of a member, in any order: the elections, one callback
  -- after the other; the calls from other members; the rounds of the monitor and the heartbeat.
  -- While a round waits for the network, any of this may happen too.
  pub data Run : ServiceDiscovery → ServiceDiscovery → Type 0 where
    here : {s : ServiceDiscovery} → Run s s
    leads : {s t : ServiceDiscovery} → Run s t → Run s (on_become_leader t)
    resigns : {s t : ServiceDiscovery} → Run s t → Run s (on_resign_leader t)
    follows :
        {s t u : ServiceDiscovery} (net : Network) (address : ℕ) (me leader : Identity)
        → Run s t
        → on_become_follower net address me t leader ≡ some u
        → Run s u
    registers :
        {s t : ServiceDiscovery} (net : Network) (address : ℕ) (me follower : Identity)
        → Run s t
        → Run s (handle_register net address me t follower)
    is_told :
        {s t : ServiceDiscovery} (payload : Model) → Run s t → Run s (handle_rebalance t payload).0
    monitors :
        {s t : ServiceDiscovery} (meanwhile : ServiceDiscovery → ServiceDiscovery) (net : Network)
        → ((r : ServiceDiscovery) → Run r (meanwhile r))
        → Run s t
        → Run s (monitor meanwhile net t).0
    beats :
        {s t u : ServiceDiscovery}
        (during_ping during_reconnect : ServiceDiscovery → ServiceDiscovery) (net : Network)
        → ((r : ServiceDiscovery) → Run r (during_ping r))
        → ((r : ServiceDiscovery) → Run r (during_reconnect r))
        → Run s t
        → heartbeat during_ping during_reconnect net t ≡ some u
        → Run s u

  on_become_follower-IsConsistent :
      (net : Network) (address : ℕ) (me leader : Identity) (s t : ServiceDiscovery)
      → on_become_follower net address me s leader ≡ some t
      → IsConsistent t
  on_become_follower-IsConsistent net address me leader s t h =
      let (not_leading, empty, followed) =
        on_become_follower-IsFollower net address me leader s t h in
      record {
        exclusive = inl not_leading;
        reachable = by_leader t.leader_service followed;
        served = λ n. rw (empty n) tt;
      }
    where
      by_leader : (o : Option Service) → Follows net leader o → IsReachable o
      by_leader none f = tt
      by_leader (some service) f = f.1

  Run-keeps : {s t : ServiceDiscovery} → Run s t → IsConsistent s → IsConsistent t
  unfolding handle_rebalance
  Run-keeps here inv = inv
  Run-keeps (leads {t = t} run) inv = on_become_leader-IsConsistent t (Run-keeps run inv)
  Run-keeps (resigns {t = t} run) inv = on_resign_leader-IsConsistent t (Run-keeps run inv)
  Run-keeps (follows {t = t} {u = u} net address me leader run e) inv =
      on_become_follower-IsConsistent net address me leader t u e
  Run-keeps (registers {t = t} net address me follower run) inv =
      handle_register-IsConsistent net address me t follower (Run-keeps run inv)
  Run-keeps (is_told {t = t} payload run) inv =
      set_info-IsConsistent t payload.member_number payload.total_members (Run-keeps run inv)
  Run-keeps (monitors {t = t} meanwhile net also run) inv =
      monitor-IsConsistent meanwhile net t (λ r. Run-keeps (also r)) (Run-keeps run inv)
  Run-keeps (beats {t = t} {u = u} during_ping during_reconnect net also also' run e) inv =
      heartbeat-IsConsistent during_ping during_reconnect net t u (λ r. Run-keeps (also r))
        (λ r. Run-keeps (also' r)) (Run-keeps run inv) e

  -- Whatever happens to the service discovery of a member, in any order and also while its rounds
  -- wait for the network, as long as the callbacks of elections run one after the other: a member
  -- that leads follows nobody; its services stand under their names; and its clients, of the
  -- leader and of the services, are connected.
  pub Run-IsConsistent : {s : ServiceDiscovery} → Run new_service_discovery s → IsConsistent s
  Run-IsConsistent run = Run-keeps run new-IsConsistent
