-- ===== src/ServiceDiscovery/Roles.antt =====
-- Who leads: what stays true of the service discovery of a member, whatever the order of elections,
-- registrations, heartbeats and monitor rounds.
use go_dcp.Prelude.{
  ◌≡◌, refl, sym, subst, ◌∙◌, ◌⊎◌, inl, inr, Bool, true, false, Option, none, some, String,
  string_comparable, arith, Bool-cases, Option-cases, if◌then◌else◌,
}
use go_dcp.Wrapper.{CsMap, load}
use go_dcp.Wrapper.Laws.{load-create, load-store}
use go_dcp.ServiceDiscovery.Rpc.{Identity, Network, Client, connect, ping, new_client, after_retry}
use go_dcp.ServiceDiscovery.Rounds.{check_services}
use go_dcp.ServiceDiscovery.Defs.{
  Service, ServiceDiscovery, registered_again, with_client, new_service_discovery, add, remove_all,
  reassign_leader, is_failed, drop_leader, remove_leader, same_object,
}
use go_dcp.ServiceDiscovery.Removal.{
  remove_all_empties, remove_all_keeps, check_services_keeps, check_services-picked,
  remove_picked_lem, picks,
}

-- A service under its own name, with a client that is connected.
abbrev pub IsServed : String → Option Service → Type 0
IsServed n none = Unit
IsServed n (some service) = (service.name ≡ n) × (service.client.connected ≡ true)

abbrev pub IsReachable : Option Service → Type 0
IsReachable none = Unit
IsReachable (some leader) = leader.client.connected ≡ true

module _ ⦃cs : CsMap String⦄ where
  -- A member that leads follows nobody; the services stand under their names; and the clients of
  -- the leader and of the services are connected.
  pub record IsConsistent (s : ServiceDiscovery) : Type 0 where
    pub exclusive : (s.am_i_leader ≡ false) ⊎ (s.leader_service ≡ none)
    pub reachable : IsReachable s.leader_service
    pub served : (n : String) → IsServed n (load s.services n)

  pub new-IsConsistent : IsConsistent new_service_discovery
  unfolding new_service_discovery
  new-IsConsistent = record {
    exclusive = inl refl;
    reachable = tt;
    served = λ n. rw (load-create {V = Service} 0 n) tt;
  }

  pub new_client-connected :
      (net : Network) (me target : Identity) (c : Client)
      → new_client net me target ≡ some c
      → c.connected ≡ true
  unfolding new_client
  new_client-connected net me target c h =
      ground (arith, Option-cases (after_retry (net.dial target.ip)))

  pub add-IsConsistent :
      (s : ServiceDiscovery) (v : Service)
      → v.client.connected ≡ true
      → IsConsistent s
      → IsConsistent (add s v)
  unfolding add
  add-IsConsistent s v connected inv = record {
    exclusive = inv.exclusive;
    reachable = inv.reachable;
    served = λ n. elim (Bool-cases (string_comparable.beq v.name n)) [
      | inl same ↦
          rw (load-store s.services v.name n v, same)
            ((string_comparable.beq_iff v.name n).0 same, connected)
      | inr other ↦ rw (load-store s.services v.name n v, other) (inv.served n)
    ];
  }

  pub remove_all-IsConsistent :
      (s : ServiceDiscovery) → IsConsistent s → IsConsistent (remove_all s)
  remove_all-IsConsistent s inv = rw (remove_all_keeps s) (record {
    exclusive = inv.exclusive;
    reachable = inv.reachable;
    served = λ n. rw (remove_all_empties s n) tt;
  })

  pub check_services-IsConsistent :
      (net : Network) (s : ServiceDiscovery) → IsConsistent s → IsConsistent (check_services net s)
  check_services-IsConsistent net s inv = rw (check_services_keeps net s) (record {
    exclusive = inv.exclusive;
    reachable = inv.reachable;
    served = λ n.
        rw
          (
            check_services-picked net s,
            remove_picked_lem (λ service. is_failed (ping net service.client)) s n,
          )
          (by_test n (load s.services n) (inv.served n)
            (picks (λ service. is_failed (ping net service.client)) (load s.services n)));
  })
    where
      by_test :
          (n : String) (o : Option Service)
          → IsServed n o
          → (b : Bool) → IsServed n (if b then none else o)
      by_test n o h true = tt
      by_test n o h false = h

  connect-connected :
      (net : Network) (c : Client) → c.connected ≡ true → (connect net c).0.connected ≡ true
  unfolding connect
  connect-connected net c h =
      ground (arith, Option-cases (after_retry (net.dial c.target_identity.ip)))

  -- What other goroutines do keeps the invariant.
  abbrev pub Keeps : (ServiceDiscovery → ServiceDiscovery) → Type 0
  Keeps f = (s : ServiceDiscovery) → IsConsistent s → IsConsistent (f s)

  registered_again-same :
      (net : Network) (s t : ServiceDiscovery) (e : Option String) (l : Option Service)
      → (err : Option String) → registered_again net s e l ≡ some (t, err)
      → s ≡ t
  registered_again-same net s t (some e) l err h = cc
  registered_again-same net s t none none err h = absurd (ground arith)
  registered_again-same net s t none (some leader) err h = cc

  pub reassign_leader-IsConsistent :
      (during : ServiceDiscovery → ServiceDiscovery) (net : Network) (s t : ServiceDiscovery)
      → (err : Option String) → Keeps during
      → IsConsistent s
      → reassign_leader during net s ≡ some (t, err)
      → IsConsistent t
  unfolding reassign_leader
  reassign_leader-IsConsistent during net s t err keeps inv h =
      elim (Option-cases s.leader_service) [
        | inl nobody ↦
            let alone : ServiceDiscovery × Option String = (s, some "leader is not assigned") in
            let quiet : some alone ≡ some (t, err) = sym (rw (nobody, reassign_leader)) ∙ h in
            let same : s ≡ t = cc in subst IsConsistent same inv
        | inr (leader, at) ↦
            let (client, answer) = connect net leader.client in
            let dialled : ServiceDiscovery = record s {
              leader_service = some (with_client leader client);
            } in
            let still : IsConsistent dialled = record {
              exclusive = inl (ground (arith, inv.exclusive));
              reachable = connect-connected net leader.client (ground (arith, inv.reachable));
              served = inv.served;
            } in
            subst IsConsistent
              (registered_again-same net (during dialled) t answer (during dialled).leader_service
                err (sym (rw (at, reassign_leader)) ∙ h))
              (keeps dialled still)
      ]

  pub drop_leader-IsConsistent :
      (temp : Option Service) (s : ServiceDiscovery) (err : Option String)
      → IsConsistent s
      → IsConsistent (drop_leader temp (s, err))
  unfolding remove_leader
  drop_leader-IsConsistent temp s none inv = inv
  drop_leader-IsConsistent temp s (some err) inv =
      elim (Bool-cases (same_object temp s.leader_service)) [
        | inl same ↦ rw same (record { exclusive = inr refl; reachable = tt; served = inv.served })
        | inr other ↦ rw other inv
      ]
