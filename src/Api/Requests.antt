-- ===== src/Api/Requests.antt =====
-- What requests for a membership come to: api/api.go with membership/dynamic_membership.go.
use go_dcp.Prelude.{
  ℕ, ◌≡◌, refl, ap, ap₂, ◌∙◌, ◌&&◌, inl, inr, Bool, true, false, Option, none, some, List, [], ◌∷◌,
  ◌++◌, nat_comparable, ◌==◌, arith, if◌then◌else◌, Bool-cases,
}
use go_dcp.Wrapper.{CsMap}
use go_dcp.Membership.{Model, Listening, is_changed, membership_changed_listener}
use go_dcp.Membership.Waiting.{hear}
use go_dcp.Api.{info, text}

abbrev pub is_repeat : Option Model → Model → Bool
is_repeat none m = false
is_repeat (some n) m = n.member_number == m.member_number && n.total_members == m.total_members

-- The requests without those that repeat the one before.
abbrev pub without_repeats : Option Model → List Model → List Model
without_repeats old [] = []
without_repeats old (m ∷ ms) =
    let rest = without_repeats (some m) ms in if is_repeat old m then rest else m ∷ rest

abbrev pub latest : Option Model → List Model → Option Model
latest old [] = old
latest old (m ∷ ms) = latest (some m) ms

not_repeat : (old : Option Model) (m : Model) → is_changed m old ≡ true → is_repeat old m ≡ false
unfolding is_changed
not_repeat none m e = refl
not_repeat (some n) m e = ground arith

repeat : (old : Option Model) (m : Model) → is_changed m old ≡ false → is_repeat old m ≡ true
unfolding is_changed
repeat none m e = absurd (ground arith)
repeat (some n) m e = ground arith

repeat_eq : (old : Option Model) (m : Model) → is_repeat old m ≡ true → old ≡ some m
repeat_eq none m e = absurd (ground arith)
repeat_eq (some n) m e =
    let members : n.member_number ≡ m.member_number = ground arith in
    let totals : n.total_members ≡ m.total_members = ground arith in
    ap₂ (λ a b. some (record { member_number = a; total_members = b })) members totals

listener-info : (d : Listening) (m : Model) → (membership_changed_listener d m).info ≡ some m
unfolding membership_changed_listener
listener-info d m = ground arith

module _ ⦃cs : CsMap ℕ⦄ where
  info-changed :
      (old : Option Model) (m : Model)
      → is_changed m old ≡ true
      → info old (some m) ≡ (some m, text "OK", m ∷ [])
  unfolding info
  info-changed old m e = rw e refl

  info-same :
      (old : Option Model) (m : Model)
      → is_changed m old ≡ false
      → info old (some m) ≡ (old, text "OK", [])
  unfolding info
  info-same old m e = rw e refl

  -- A run of requests, each of them parsed: what the API holds, and what it has published.
  abbrev pub requests : Option Model → List Model → Option Model × List Model
  requests old [] = (old, [])
  requests old (m ∷ ms) =
      let (now, response, published) = info old (some m) in
      let (end, later) = requests now ms in (end, published ++ later)

  -- Any number of requests for a membership publish the models that differ from the one requested
  -- before, in their order, and the API holds the last. A dynamic membership that held what the
  -- API held, and hears of what is published, then holds the model of the last request too.
  pub requests_lem :
      (old : Option Model) (d : Listening) (ms : List Model)
      → d.info ≡ old
      → ((requests old ms).1 ≡ without_repeats old ms)
        × ((requests old ms).0 ≡ latest old ms)
        × ((hear d (requests old ms).1).info ≡ latest old ms)
  requests_lem old d [] h = (refl, refl, h)
  requests_lem old d (m ∷ ms) h = elim (Bool-cases (is_changed m old)) [
    | inl differs ↦
        let (published, held, heard) =
          requests_lem (some m) (membership_changed_listener d m) ms (listener-info d m) in
        rw (info-changed old m differs, not_repeat old m differs)
          (ap (λ l. m ∷ l) published, held, heard)
    | inr alike ↦
        let same : old ≡ some m = repeat_eq old m (repeat old m alike) in
        let (published, held, heard) = requests_lem (some m) d ms (h ∙ same) in
        rw (info-same old m alike, repeat old m alike, same) (published, held, heard)
  ]
