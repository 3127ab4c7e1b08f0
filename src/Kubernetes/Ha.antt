-- ===== src/Kubernetes/Ha.antt =====
-- kubernetes/ha_membership.go, whose methods are those of the dynamic membership. The bus is left
-- out.
use go_dcp.Prelude.{Option}
use go_dcp.Membership.{Model, Listening, new_listening, get_info, membership_changed_listener}

unfoldable pub new_ha_membership : Listening
unfolding new_listening
new_ha_membership = new_listening

unfoldable pub ha_get_info : Listening → Option (Model × Listening)
unfolding get_info
ha_get_info h = get_info h

unfoldable pub ha_membership_changed_listener : Listening → Model → Listening
unfolding membership_changed_listener
ha_membership_changed_listener h model = membership_changed_listener h model
