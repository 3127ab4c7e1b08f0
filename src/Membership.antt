-- ===== src/Membership.antt =====
-- membership/membership.go, static_membership.go, dynamic_membership.go, and the listeners of
-- kubernetes/ha_membership.go and couchbase/membership.go, which are the same code.
-- Numbers of members are taken not to be negative.
pub mod Static
pub mod Waiting
use go_dcp.Prelude.{
  ℕ, Bool, true, not, ◌||◌, Option, none, some, List, [], ◌∷◌, ◌==◌, if◌then◌else◌,
}

pub record Model : Type 0 where
  pub member_number : ℕ
  pub total_members : ℕ

unfoldable pub is_changed : Model → Option Model → Bool
is_changed s none = true
is_changed s (some other) =
    not (s.member_number == other.member_number) || not (s.total_members == other.total_members)

-- A membership that hears of changes on the bus. The channel has no room: `sending` are the models
-- that a goroutine offers on it, oldest first.
pub record Listening : Type 0 where
  pub info : Option Model
  pub sending : List Model

unfoldable pub new_listening : Listening
new_listening = record { info = none; sending = [] }

unfoldable pub membership_changed_listener : Listening → Model → Listening
membership_changed_listener d m = elim d.info [
  | none ↦ record { info = some m; sending = m ∷ d.sending }
  | some old ↦ record { info = some m; sending = d.sending }
]

-- `none`: the caller waits on the channel.
unfoldable pub take_sent : List Model → Listening → Option (Model × Listening)
take_sent [] d = none
take_sent (m ∷ rest) d = some (m, record d { sending = rest })

unfoldable pub known_or_sent : Option Model → Listening → Option (Model × Listening)
unfolding take_sent
known_or_sent none d = take_sent d.sending d
known_or_sent (some m) d = some (m, d)

unfoldable pub get_info : Listening → Option (Model × Listening)
unfolding known_or_sent
get_info d = known_or_sent d.info d
