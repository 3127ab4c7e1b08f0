-- ===== src/Membership/Waiting.antt =====
-- What a listening membership answers, from the changes that it has heard of.
use go_dcp.Prelude.{◌≡◌, refl, ap, none, some, List, [], ◌∷◌, arith}
use go_dcp.Membership.{
  Model, Listening, new_listening, membership_changed_listener, known_or_sent, get_info,
}

abbrev pub hear : Listening → List Model → Listening
hear d [] = d
hear d (m ∷ ms) = hear (membership_changed_listener d m) ms

abbrev pub last_of : Model → List Model → Model
last_of m [] = m
last_of m (n ∷ ms) = last_of n ms

hear-info :
    (d : Listening) (m : Model) (ms : List Model)
    → d.info ≡ some m
    → (hear d ms).info ≡ some (last_of m ms)
unfolding membership_changed_listener
hear-info d m [] h = h
hear-info d m (n ∷ ms) h = hear-info (membership_changed_listener d n) n ms (ground arith)

get_info-known : (d : Listening) (m : Model) → d.info ≡ some m → get_info d ≡ some (m, d)
unfolding get_info
get_info-known d m h = ap (λ o. known_or_sent o d) h

-- A membership that has heard of nothing makes its caller wait; one that has heard of changes
-- answers with the latest at once, and hears of nothing less for having answered.
pub get_info-latest :
    (m : Model) (ms : List Model)
    → (get_info new_listening ≡ none)
      × (get_info (hear new_listening (m ∷ ms)) ≡ some (last_of m ms, hear new_listening (m ∷ ms)))
unfolding get_info new_listening membership_changed_listener
get_info-latest m ms = (
  refl,
  get_info-known (hear new_listening (m ∷ ms)) (last_of m ms)
      (hear-info (membership_changed_listener new_listening m) m ms refl),
)
