-- ===== src/Membership/Static.antt =====
-- membership/static_membership.go: the numbers of the configuration, which may be negative.
use go_dcp.Prelude.{ℤ, pos, negsuc, Option, none, some}
use go_dcp.Config.Types.{Dcp}
use go_dcp.Membership.{Model}

-- A Model whose numbers come from the configuration or a host name.
pub record Configured : Type 0 where
  pub member_number : ℤ
  pub total_members : ℤ

-- The Model of numbers that are not negative
abbrev pub model_of : ℤ → ℤ → Option Model
model_of (pos m) (pos n) = some (record { member_number = m; total_members = n })
model_of (pos m) (negsuc n) = none
model_of (negsuc m) total = none

unfoldable pub new_static_membership : Dcp → Configured
new_static_membership config = record {
  member_number = config.dcp.group.membership.member_number;
  total_members = config.dcp.group.membership.total_members;
}
