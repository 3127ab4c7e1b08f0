-- ===== src/Discovery/Choice.antt =====
-- stream/vbucket_discovery.go: which membership NewVBucketDiscovery makes. A panic is `none`.
use go_dcp.Prelude.{
  ℕ, Bool, Option, none, some, List, String, string_comparable, if◌then◌else◌, ◌>>=◌,
}
use go_dcp.Config.Types.{Dcp}
use go_dcp.Config.Views.{is_couchbase_metadata}
use go_dcp.Membership.{Listening, new_listening}
use go_dcp.Membership.Static.{Configured, new_static_membership}
use go_dcp.Kubernetes.{new_stateful_set_membership}
use go_dcp.Kubernetes.Ha.{new_ha_membership}
use go_dcp.Discovery.{VBucketDiscovery}

-- The instance of couchbase/membership.go listens as well; its round is in CbMembership.antt.
pub data Membership : Type 0 where
  static stateful_set : Configured → Membership
  couchbase kubernetes_ha dynamic : Listening → Membership

abbrev pub is_type : Dcp → String → Bool
is_type config type = string_comparable.beq config.dcp.group.membership.type type

-- `registers` says whether the instance of a group can be registered.
unfoldable pub new_membership : Bool → Option (List ℕ) → Dcp → Option Membership
unfolding new_static_membership is_couchbase_metadata new_stateful_set_membership new_ha_membership
    new_listening
new_membership registers hostname config =
    if is_type config "static"
    then some (static (new_static_membership config))
    else if is_type config "couchbase"
    then (if is_couchbase_metadata config
        then if registers then some (couchbase new_listening) else none
        else none)
    else if is_type config "kubernetesStatefulSet"
    then (new_stateful_set_membership hostname config >>= λ i. some (stateful_set i))
    else if is_type config "kubernetesHa"
    then some (kubernetes_ha new_ha_membership)
    else if is_type config "dynamic"
    then some (dynamic new_listening)
    else none

unfoldable pub new_v_bucket_discovery :
    Bool → Option (List ℕ) → Dcp → ℕ → Option (Membership × VBucketDiscovery)
unfolding new_membership
new_v_bucket_discovery registers hostname config v_bucket_number = do
  membership ← new_membership registers hostname config
  some (
    membership,
    record {
      v_bucket_number = v_bucket_number;
      metric = record {
        total_members = 0;
        member_number = 0;
        v_bucket_count = v_bucket_number;
        v_bucket_range_start = 0;
        v_bucket_range_end = 0;
      };
    },
  )
