-- ===== src/ServiceDiscovery/Steps.antt =====
-- What each round, call and callback of servicediscovery/ keeps and leaves.
use go_dcp.Prelude.{
  ℕ, ◌+◌, ◌≡◌, refl, sym, ap, ◌∙◌, subst, inl, inr, Bool, true, false, not, Option, none, some,
  List, String, string_comparable, length, arith, Bool-cases, Option-cases, if◌then◌else◌, ◌>>=◌,
}
use go_dcp.Wrapper.{CsMap, load}
use go_dcp.Membership.{Model, is_changed}
use go_dcp.ServiceDiscovery.Rpc.{Identity, Network, Client, ping, register, new_client}
use go_dcp.ServiceDiscovery.Rounds.{
  check_services, heartbeat, get_all, set_info, monitor, handle_register,
}
use go_dcp.ServiceDiscovery.Defs.{
  Service, ServiceDiscovery, remove_all, remove_leader, dont_be_leader, assign_leader,
  reassign_leader, check_leader, is_failed, drop_leader,
}
use go_dcp.ServiceDiscovery.Election.{
  on_become_leader, on_resign_leader, on_become_follower, follow,
}
use go_dcp.ServiceDiscovery.Removal.{remove_all_empties, remove_all_keeps}
use go_dcp.ServiceDiscovery.Roles.{
  IsConsistent, Keeps, new_client-connected, add-IsConsistent, remove_all-IsConsistent,
  check_services-IsConsistent, reassign_leader-IsConsistent, drop_leader-IsConsistent,
}

module _ ⦃cs : CsMap String⦄ where
  dropped-IsConsistent :
      (temp : Option Service) (o : Option (ServiceDiscovery × Option String)) (t : ServiceDiscovery)
      → ((s : ServiceDiscovery) (err : Option String) → o ≡ some (s, err) → IsConsistent s)
      → (o >>= λ r. some (drop_leader temp r)) ≡ some t
      → IsConsistent t
  dropped-IsConsistent temp none t inv h = absurd (ground arith)
  dropped-IsConsistent temp (some (s, err)) t inv h =
      let same : drop_leader temp (s, err) ≡ t = cc in
      subst IsConsistent same (drop_leader-IsConsistent temp s err (inv s err refl))

  check_leader-IsConsistent :
      (during_ping during_reconnect : ServiceDiscovery → ServiceDiscovery) (net : Network)
      → (s t : ServiceDiscovery) → Keeps during_ping
      → Keeps during_reconnect
      → IsConsistent s
      → check_leader during_ping during_reconnect net s ≡ some t
      → IsConsistent t
  unfolding check_leader
  check_leader-IsConsistent during_ping during_reconnect net s t keeps keeps' inv h =
      elim (Option-cases s.leader_service) [
        | inl nobody ↦
            let quiet : some s ≡ some t = sym (rw (nobody, check_leader)) ∙ h in
            let same : s ≡ t = cc in subst IsConsistent same inv
        | inr (leader, at) ↦ elim (Bool-cases (is_failed (ping net leader.client))) [
          | inr answered ↦
              let quiet : some (during_ping s) ≡ some t =
                sym (rw (at, check_leader) (rw answered)) ∙ h in
              let same : during_ping s ≡ t = cc in subst IsConsistent same (keeps s inv)
          | inl failed ↦
              dropped-IsConsistent (during_ping s).leader_service
                (reassign_leader during_reconnect net (during_ping s)) t
                (λ r err.
                  reassign_leader-IsConsistent during_reconnect net (during_ping s) r err keeps'
                    (keeps s inv))
                (sym (rw (at, check_leader) (rw failed)) ∙ h)
        ]
      ]

  pub heartbeat-IsConsistent :
      (during_ping during_reconnect : ServiceDiscovery → ServiceDiscovery) (net : Network)
      → (s t : ServiceDiscovery) → Keeps during_ping
      → Keeps during_reconnect
      → IsConsistent s
      → heartbeat during_ping during_reconnect net s ≡ some t
      → IsConsistent t
  unfolding heartbeat
  heartbeat-IsConsistent during_ping during_reconnect net s t keeps keeps' inv h =
      elim (Option-cases (check_leader during_ping during_reconnect net s)) [
        | inl panic ↦ absurd (ground arith)
        | inr (r, e) ↦
            let same : check_services net r ≡ t = ground arith in
            subst IsConsistent same (
              check_services-IsConsistent net r
                (check_leader-IsConsistent during_ping during_reconnect net s r keeps keeps' inv e))
      ]

  pub set_info-IsConsistent :
      (s : ServiceDiscovery) (number total : ℕ)
      → IsConsistent s
      → IsConsistent (set_info s number total).0
  unfolding set_info
  set_info-IsConsistent s number total inv =
      elim (Bool-cases
        (is_changed (record { member_number = number; total_members = total }) s.info)) [
          | inl new ↦
              rw new (record {
                exclusive = inv.exclusive;
                reachable = inv.reachable;
                served = inv.served;
              })
          | inr old ↦ rw old inv
        ]

  if-IsConsistent :
      (b : Bool) (x y : ServiceDiscovery × List Model × List (String × Model))
      → IsConsistent x.0
      → IsConsistent y.0
      → IsConsistent (if b then x else y).0
  if-IsConsistent true x y inv inv' = inv
  if-IsConsistent false x y inv inv' = inv'

  pub monitor-IsConsistent :
      (meanwhile : ServiceDiscovery → ServiceDiscovery) (net : Network) (s : ServiceDiscovery)
      → Keeps meanwhile
      → IsConsistent s
      → IsConsistent (monitor meanwhile net s).0
  unfolding monitor
  monitor-IsConsistent meanwhile net s keeps inv =
      if-IsConsistent (not s.am_i_leader) _ _ inv
        (keeps _ (set_info-IsConsistent s 1 (length (get_all s) + 1) inv))

  pub handle_register-IsConsistent :
      (net : Network) (address : ℕ) (me : Identity) (s : ServiceDiscovery) (follower : Identity)
      → IsConsistent s
      → IsConsistent (handle_register net address me s follower)
  unfolding handle_register
  handle_register-IsConsistent net address me s follower inv =
      elim (Option-cases (new_client net me follower)) [
        | inl unreachable ↦ rw (unreachable, handle_register) inv
        | inr (client, e) ↦
            rw (e, handle_register)
              (add-IsConsistent s _ (new_client-connected net me follower client e) inv)
      ]

  pub on_become_leader-IsConsistent : Keeps on_become_leader
  unfolding on_become_leader
  on_become_leader-IsConsistent s inv = record {
    exclusive = inr refl;
    reachable = tt;
    served = inv.served;
  }

  without_leader : ServiceDiscovery → ServiceDiscovery
  unfolding dont_be_leader remove_leader
  without_leader s = remove_leader (remove_all (dont_be_leader s))

  -- No service is left, and nobody leads or is followed.
  without_leader_lem :
      (s : ServiceDiscovery)
      → ((without_leader s).am_i_leader ≡ false)
        × ((without_leader s).leader_service ≡ none)
        × ((n : String) → load (without_leader s).services n ≡ none)
  unfolding without_leader
  without_leader_lem s = (
    ap (λ (r : ServiceDiscovery). r.am_i_leader) (remove_all_keeps (dont_be_leader s)),
    refl,
    remove_all_empties (dont_be_leader s),
  )

  pub on_resign_leader-IsConsistent : Keeps on_resign_leader
  unfolding on_resign_leader
  on_resign_leader-IsConsistent s inv =
      remove_all-IsConsistent (dont_be_leader s)
        (record { exclusive = inl refl; reachable = inv.reachable; served = inv.served })

  -- Whom a follower follows: nobody, or the new leader, which is connected and has registered it.
  abbrev pub Follows : Network → Identity → Option Service → Type 0
  Follows net leader none = Unit
  Follows net leader (some service) =
      (service.name ≡ leader.name)
      × (service.client.connected ≡ true)
      × (register net service.client ≡ none)

  abbrev pub IsFollower : Network → Identity → ServiceDiscovery → Type 0
  IsFollower net leader s =
      (s.am_i_leader ≡ false)
      × ((n : String) → load s.services n ≡ none)
      × Follows net leader s.leader_service

  follow-IsFollower :
      (net : Network) (address : ℕ) (leader : Identity) (s t : ServiceDiscovery) (o : Option Client)
      → ((c : Client) → o ≡ some c → c.connected ≡ true)
      → IsFollower net leader s
      → follow net address leader s o ≡ some t
      → IsFollower net leader t
  unfolding assign_leader
  follow-IsFollower net address leader s t none connected empty h =
      let same : s ≡ t = cc in subst (IsFollower net leader) same empty
  follow-IsFollower net address leader s t (some c) connected empty h =
      elim (Option-cases (register net c)) [
        | inl registered ↦
            let same : assign_leader s (record {
              address = address;
              client = c;
              name = leader.name;
              cluster_join_time = leader.cluster_join_time;
            })
                ≡ t =
              ground (arith, registered, h) in
            subst (IsFollower net leader) same
              (empty.0, empty.1, (refl, connected c refl, registered))
        | inr (err, refused) ↦ absurd (ground (arith, refused, h))
      ]

  -- A member that follows a new leader, where this returns, has no services left and does not lead;
  -- it follows nobody, which is so if the leader cannot be reached, or the new leader.
  pub on_become_follower-IsFollower :
      (net : Network) (address : ℕ) (me leader : Identity) (s t : ServiceDiscovery)
      → on_become_follower net address me s leader ≡ some t
      → IsFollower net leader t
  unfolding on_become_follower without_leader
  on_become_follower-IsFollower net address me leader s t h =
      let (not_leading, alone, empty) = without_leader_lem s in
      follow-IsFollower net address leader (without_leader s) t (new_client net me leader)
        (new_client-connected net me leader) (not_leading, empty, tt) h
