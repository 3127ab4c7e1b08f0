-- ===== src/ServiceDiscovery/Labels.antt =====
-- The label of a member's pod, for kubernetes/leader_elector.go and stream/leader_election.go.
use go_dcp.Prelude.{
  ℕ, ◌≡◌, ◌↔◌, refl, subst, inl, inr, true, false, none, some, String, string_comparable, arith,
  Bool-cases, Option-cases,
}
use go_dcp.Wrapper.{CsMap}
use go_dcp.Membership.{Model}
use go_dcp.ServiceDiscovery.Rpc.{Identity, equal, Network, new_client}
use go_dcp.ServiceDiscovery.Defs.{ServiceDiscovery, new_service_discovery, dont_be_leader}
use go_dcp.ServiceDiscovery.Rounds.{handle_register, handle_rebalance}
use go_dcp.ServiceDiscovery.Election.{
  Member, on_resign_leader, on_become_follower, on_started_leading, on_stopped_leading,
  on_new_leader,
}
use go_dcp.ServiceDiscovery.Removal.{remove_all_keeps}
use go_dcp.ServiceDiscovery.Steps.{on_become_follower-IsFollower}

module _ ⦃cs : CsMap String⦄ where
  -- The callbacks of elections, one after the other, whose patches Kubernetes takes, and between
  -- them the calls from other members.
  pub data Elections : Member → Member → Type 0 where
    here : {m : Member} → Elections m m
    starts : {m n : Member} → Elections m n → Elections m (on_started_leading true n)
    stops : {m n : Member} → Elections m n → Elections m (on_stopped_leading true n)
    is_new :
        {m n o : Member} (net : Network) (address : ℕ) (me leader : Identity)
        → Elections m n
        → on_new_leader true net address me n leader ≡ some o
        → Elections m o
    registers :
        {m n : Member} (net : Network) (address : ℕ) (me follower : Identity)
        → Elections m n
        → Elections m (record n { discovery = handle_register net address me n.discovery follower })
    is_told :
        {m n : Member} (payload : Model)
        → Elections m n
        → Elections m (record n { discovery = (handle_rebalance n.discovery payload).0 })

  -- The pod has the label of a leader exactly when its member leads.
  abbrev pub IsLabelled : Member → Type 0
  IsLabelled m = (m.role ≡ some "leader") ↔ (m.discovery.am_i_leader ≡ true)

  leads-handle_register :
      (net : Network) (address : ℕ) (me follower : Identity) (s : ServiceDiscovery)
      → (handle_register net address me s follower).am_i_leader ≡ s.am_i_leader
  unfolding handle_register
  leads-handle_register net address me follower s =
      ground (arith, Option-cases (new_client net me follower))

  leads-handle_rebalance :
      (s : ServiceDiscovery) (payload : Model)
      → (handle_rebalance s payload).0.am_i_leader ≡ s.am_i_leader
  unfolding handle_rebalance
  leads-handle_rebalance s payload = ground arith

  leads-on_resign_leader : (s : ServiceDiscovery) → (on_resign_leader s).am_i_leader ≡ false
  unfolding on_resign_leader
  leads-on_resign_leader s = rw (remove_all_keeps (dont_be_leader s)) refl

  new_leader-IsLabelled :
      (net : Network) (address : ℕ) (me leader : Identity) (m o : Member)
      → IsLabelled m
      → on_new_leader true net address me m leader ≡ some o
      → IsLabelled o
  unfolding on_new_leader
  new_leader-IsLabelled net address me leader m o inv h = elim (Bool-cases (equal me leader)) [
    | inl self ↦ let same : m ≡ o = ground (arith, self, h) in subst IsLabelled same inv
    | inr other ↦ elim (Option-cases (on_become_follower net address me m.discovery leader)) [
      | inl panics ↦ absurd (ground (arith, other, panics, h))
      | inr (s, becomes) ↦
          let (not_leading, empty, followed) =
            on_become_follower-IsFollower net address me leader m.discovery s becomes in
          let told : record m { role = some "follower"; discovery = s } ≡ o =
            ground (arith, other, becomes, h) in
          subst IsLabelled told (λ leads. cc, λ leads. cc)
    ]
  ]

  Elections-keep : {m n : Member} → Elections m n → IsLabelled m → IsLabelled n
  unfolding on_started_leading on_stopped_leading
  Elections-keep here inv = inv
  Elections-keep (starts {n = n} run) inv = (λ told. refl, λ leads. refl)
  Elections-keep (stops {n = n} run) inv =
      (λ told. cc, λ leads. cc (leads-on_resign_leader n.discovery))
  Elections-keep (is_new {n = n} {o = o} net address me leader run e) inv =
      new_leader-IsLabelled net address me leader n o (Elections-keep run inv) e
  Elections-keep (registers {n = n} net address me follower run) inv =
      rw (leads-handle_register net address me follower n.discovery) (Elections-keep run inv)
  Elections-keep (is_told {n = n} payload run) inv =
      rw (leads-handle_rebalance n.discovery payload) (Elections-keep run inv)

  -- A member starts with no label and does not lead. Whatever callbacks of elections it gets, one
  -- after the other, and whatever other members call between them: as long as Kubernetes takes the
  -- patches of the label, its pod has the label of a leader exactly when the member leads.
  pub Elections-IsLabelled :
      {m : Member}
      → Elections (record { role = none; discovery = new_service_discovery }) m
      → (m.role ≡ some "leader") ↔ (m.discovery.am_i_leader ≡ true)
  unfolding new_service_discovery
  Elections-IsLabelled run = Elections-keep run (λ told. cc, λ leads. cc)
