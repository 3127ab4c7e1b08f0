-- ===== src/CbMembership/Numbers.antt =====
-- The numbers that couchbase/membership.go gives to the instances of a group.
use go_dcp.Prelude.{
  ℕ, zero, suc, ◌≡◌, ◌≢◌, ap, subst, ◌∙◌, false, some, List, [], ◌∷◌, string_comparable, length,
  get_elem?, arith, All, ◌==◌, if◌then◌else◌,
}
use go_dcp.Membership.{Model, is_changed}
use go_dcp.CbMembership.Defs.{Instance, CbMembership, self_order, rebalance}

-- No two instances have the same id.
abbrev pub HasDistinctIds : List Instance → Type 0
HasDistinctIds [] = Unit
HasDistinctIds (x ∷ xs) = All (λ y. x.id ≢ y.id) xs × HasDistinctIds xs

get_elem?-All :
    (P : Instance → Type 0) (xs : List Instance) (k : ℕ) (i : Instance)
    → All P xs
    → get_elem? xs k ≡ some i
    → P i
get_elem?-All P [] k i h e = absurd (ground arith)
get_elem?-All P (x ∷ xs) zero i h e = let same : x ≡ i = cc in subst P same h.0
get_elem?-All P (x ∷ xs) (suc k) i h e = get_elem?-All P xs k i h.1 e

self_order-at :
    (xs : List Instance) (k : ℕ) (i : Instance)
    → HasDistinctIds xs
    → get_elem? xs k ≡ some i
    → self_order i.id xs ≡ suc k
unfolding self_order
self_order-at [] k i distinct e = absurd (ground arith)
self_order-at (x ∷ xs) zero i distinct e =
    let same : x ≡ i = cc in
    rw ((string_comparable.beq_iff x.id i.id).1 (ap (λ (y : Instance). y.id) same))
self_order-at (x ∷ xs) (suc k) i distinct e =
    let apart : x.id ≢ i.id = get_elem?-All (λ y. x.id ≢ y.id) xs k i distinct.0 e in
    ground (arith, self_order-at xs k i distinct.1 e, string_comparable.beq_iff x.id i.id, apart)

abbrev pub numbered : ℕ → List Instance → Model
numbered k xs = record { member_number = suc k; total_members = length xs }

-- When the active instances of a group have different ids, an instance that stands at place `k` among
-- them, from zero, takes the number after `k`, of as many members as there are instances: it
-- publishes that model if it differs from the one it knows, and nothing otherwise, and keeps the
-- list.
pub rebalance_lem :
    (h : CbMembership) (xs : List Instance) (k : ℕ) (i : Instance)
    → HasDistinctIds xs
    → get_elem? xs k ≡ some i
    → h.id ≡ i.id
    → rebalance h xs
      ≡ some (
        record h { last_active_instances = xs },
        if is_changed (numbered k xs) h.info then numbered k xs ∷ [] else [],
      )
unfolding rebalance
rebalance_lem h xs k i distinct at self =
    let order : self_order h.id xs ≡ suc k =
      ap (λ j. self_order j xs) self ∙ self_order-at xs k i distinct at in
    let found : (suc k == 0) ≡ false = ground arith in rw (order, found)
