-- ===== src/ServiceDiscovery/Election.antt =====
-- stream/leader_election.go, and the callbacks of kubernetes/leader_elector.go. The label `role` is
-- that of the pod, as the last patch that Kubernetes took has left it.
use go_dcp.Prelude.{ℕ, Bool, Option, none, some, String, string_comparable, if◌then◌else◌, ◌>>=◌}
use go_dcp.Wrapper.{CsMap}
use go_dcp.ServiceDiscovery.Rpc.{Identity, equal, Network, Client, register, new_client}
use go_dcp.ServiceDiscovery.Defs.{
  ServiceDiscovery, remove_all, be_leader, dont_be_leader, assign_leader, remove_leader,
}

module _ ⦃cs : CsMap String⦄ where
  unfoldable pub on_become_leader : ServiceDiscovery → ServiceDiscovery
  unfolding be_leader remove_leader
  on_become_leader s = remove_leader (be_leader s)

  unfoldable pub on_resign_leader : ServiceDiscovery → ServiceDiscovery
  unfolding dont_be_leader remove_all
  on_resign_leader s = remove_all (dont_be_leader s)

  abbrev pub if_registered : ServiceDiscovery → Option String → Option ServiceDiscovery
  if_registered s none = some s
  if_registered s (some err) = none

  abbrev pub follow :
      Network → ℕ → Identity → ServiceDiscovery → Option Client → Option ServiceDiscovery
  follow net address leader_identity s none = some s
  follow net address leader_identity s (some client) =
      if_registered
        (assign_leader s (record {
          address = address;
          client = client;
          name = leader_identity.name;
          cluster_join_time = leader_identity.cluster_join_time;
        }))
        (register net client)

  -- `none` is the panic where the registration fails.
  unfoldable pub on_become_follower :
      Network → ℕ → Identity → ServiceDiscovery → Identity → Option ServiceDiscovery
  unfolding dont_be_leader remove_all remove_leader assign_leader new_client register
  on_become_follower net address my_identity s leader_identity =
      follow net address leader_identity (remove_leader (remove_all (dont_be_leader s)))
        (new_client net my_identity leader_identity)

  -- A member with the label of its pod.
  pub record Member : Type 0 where
    pub role : Option String
    pub discovery : ServiceDiscovery

  -- A patch that Kubernetes refuses is only logged.
  unfoldable pub set_role : Bool → Option String → Member → Member
  set_role patched role m = if patched then record m { role = role } else m

  unfoldable pub on_started_leading : Bool → Member → Member
  unfolding set_role on_become_leader
  on_started_leading patched m =
      let m' = set_role patched (some "leader") m in
      record m' { discovery = on_become_leader m'.discovery }

  unfoldable pub on_stopped_leading : Bool → Member → Member
  unfolding set_role on_resign_leader
  on_stopped_leading patched m =
      let m' = set_role patched none m in record m' { discovery = on_resign_leader m'.discovery }

  unfoldable pub on_new_leader : Bool → Network → ℕ → Identity → Member → Identity → Option Member
  unfolding equal set_role on_become_follower
  on_new_leader patched net address my_identity m leader_identity =
      if equal my_identity leader_identity
      then some m
      else let m' = set_role patched (some "follower") m in
        (on_become_follower net address my_identity m'.discovery leader_identity >>= λ s.
        some (record m' { discovery = s }))
