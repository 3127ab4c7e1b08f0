-- ===== src/Kubernetes.antt =====
-- kubernetes/stateful_set_membership.go: the member number of a pod of a stateful set, from the name
-- of its host. A panic is `none`.
pub mod Ha
pub mod Pods
pub mod Client
use go_dcp.Prelude.{
  ℕ, zero, suc, ◌+◌, Option, none, some, List, [], ◌∷◌, drop, ℤ, pos, negsuc, ltb_ℤ, ◌==◌,
  if◌then◌else◌, ◌>>=◌,
}
use go_dcp.Strconv.{Parsed, valid, no_syntax, out_of_range, max_int, atoi}
use go_dcp.Config.Types.{Dcp}
use go_dcp.Membership.Static.{Configured}

-- strings.LastIndex of a single byte; `none` is -1.
unfoldable pub last_index : ℕ → List ℕ → Option ℕ
last_index sep [] = none
last_index sep (c ∷ cs) = elim (last_index sep cs) [
  | none ↦ if c == sep then some 0 else none
  | some i ↦ some (suc i)
]

abbrev pub ordinal : Parsed ℤ → Option ℤ
ordinal (valid n) = some n
ordinal no_syntax = none
ordinal (out_of_range n) = none

-- `hostname` is what os.Hostname answers, `none` an error.
unfoldable pub get_pod_ordinal_from_hostname : Option (List ℕ) → Option ℤ
unfolding last_index atoi
get_pod_ordinal_from_hostname hostname = do
  name ← hostname
  separator_index ← last_index b'-' name
  ordinal (atoi (drop (separator_index + 1) name))

-- n + 1 on int, which goes round at its end
abbrev pub next : ℤ → ℤ
next (pos n) = if n == max_int then negsuc max_int else pos (n + 1)
next (negsuc zero) = pos 0
next (negsuc (suc n)) = negsuc n

abbrev pub numbered_pod : Dcp → ℤ → Option Configured
numbered_pod config member_number =
    let total = config.dcp.group.membership.total_members in
    if ltb_ℤ total member_number
    then none
    else some (record { member_number = member_number; total_members = total })

unfoldable pub new_stateful_set_membership : Option (List ℕ) → Dcp → Option Configured
unfolding get_pod_ordinal_from_hostname
new_stateful_set_membership hostname config = do
  pod_ordinal ← get_pod_ordinal_from_hostname hostname
  numbered_pod config (next pod_ordinal)
