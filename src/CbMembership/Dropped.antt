-- ===== src/CbMembership/Dropped.antt =====
-- An instance that others look for while it registers: couchbase/membership.go.
use go_dcp.Prelude.{
  ℕ, ◌≡◌, ◌≢◌, refl, sym, ap, ◌∙◌, subst, ◌⊎◌, inl, inr, true, false, Option, none, some, List, [],
  ◌∷◌, String, string_comparable, All, Bool-cases, ltb, arith, ◌>>=◌,
}
use go_dcp.CbMembership.Defs.{
  Instance, CbMembership, self_order, rebalance, place, sort_ids, Fetched, fetched, not_available,
  fetch_failed, is_alive, is_cluster_changed, keep_alive, active_instances, updated, Round, monitor,
  index_of,
}

abbrev pub IsAbsent : String → List Instance → Type 0
IsAbsent id xs = All (λ i. i.id ≢ id) xs

abbrev WhenAbsent : String → Option (List Instance) → Type 0
WhenAbsent id none = Unit
WhenAbsent id (some xs) = IsAbsent id xs

-- A key that is another one, or whose document is not there.
abbrev IsSkipped : String → (String → Fetched) → String × ℕ → Type 0
IsSkipped id fetch (j, time) = (j ≢ id) ⊎ (fetch j ≡ not_available)

keep_alive-WhenAbsent :
    (h : CbMembership) (now : ℕ) (id j : String) (f : Fetched) (rest : List Instance)
    → (j ≢ id) ⊎ (f ≡ not_available)
    → IsAbsent id rest
    → WhenAbsent id (keep_alive h now j f rest)
keep_alive-WhenAbsent h now id j not_available rest skipped absent = absent
keep_alive-WhenAbsent h now id j fetch_failed rest skipped absent = tt
keep_alive-WhenAbsent h now id j (fetched beat time) rest (inr e) absent = absurd (ground arith)
keep_alive-WhenAbsent h now id j (fetched beat time) rest (inl other) absent =
    elim (Bool-cases (is_alive h now beat)) [
      | inl alive ↦ rw alive (other, absent)
      | inr late ↦ rw late absent
    ]

active_instances-WhenAbsent :
    (h : CbMembership) (now : ℕ) (fetch : String → Fetched) (id : String) (ids : List (String × ℕ))
    → All (IsSkipped id fetch) ids
    → WhenAbsent id (active_instances h now fetch ids)
unfolding active_instances
active_instances-WhenAbsent h now fetch id [] skipped = tt
active_instances-WhenAbsent h now fetch id ((j, time) ∷ ids) skipped =
    step (active_instances h now fetch ids)
      (active_instances-WhenAbsent h now fetch id ids skipped.1)
  where
    step :
        (r : Option (List Instance))
        → WhenAbsent id r
        → WhenAbsent id (r >>= λ rest. keep_alive h now j (fetch j) rest)
    step none absent = tt
    step (some rest) absent = keep_alive-WhenAbsent h now id j (fetch j) rest skipped.0 absent

place-All :
    (P : String × ℕ → Type 0) (id : String) (time : ℕ) (ids : List (String × ℕ))
    → P (id, time)
    → All P ids
    → All P (place id time ids)
unfolding place
place-All P id time [] p ps = (p, tt)
place-All P id time ((j, t) ∷ ids) p ps = elim (Bool-cases (ltb t time)) [
  | inl later ↦ rw later (ps.0, place-All P id time ids p ps.1)
  | inr here ↦ rw here (p, ps)
]

sort_ids-All :
    (P : String × ℕ → Type 0) (ids : List (String × ℕ)) → All P ids → All P (sort_ids ids)
unfolding sort_ids
sort_ids-All P [] ps = tt
sort_ids-All P ((id, time) ∷ ids) ps =
    place-All P id time (sort_ids ids) ps.0 (sort_ids-All P ids ps.1)

index_of-IsAbsent :
    (id : String) (fetch : String → Fetched) (xs : List Instance)
    → IsAbsent id xs
    → All (IsSkipped id fetch) (index_of xs)
unfolding index_of
index_of-IsAbsent id fetch [] absent = tt
index_of-IsAbsent id fetch (x ∷ xs) absent = (inl absent.0, index_of-IsAbsent id fetch xs absent.1)

self_order-IsAbsent : (id : String) (xs : List Instance) → IsAbsent id xs → self_order id xs ≡ 0
unfolding self_order
self_order-IsAbsent id [] absent = refl
self_order-IsAbsent id (x ∷ xs) absent =
    ground (arith, string_comparable.beq_iff x.id id, absent.0, self_order-IsAbsent id xs absent.1)

rebalance-IsAbsent :
    (h : CbMembership) (xs : List Instance) → IsAbsent h.id xs → rebalance h xs ≡ none
unfolding rebalance
rebalance-IsAbsent h xs absent = rw (self_order-IsAbsent h.id xs absent) refl

-- Every key is another one than that of a missing document, or its document is missing.
All-IsSkipped :
    (id : String) (fetch : String → Fetched) (ids : List (String × ℕ))
    → fetch id ≡ not_available
    → All (IsSkipped id fetch) ids
All-IsSkipped id fetch [] missing = tt
All-IsSkipped id fetch ((j, time) ∷ ids) missing =
    (by_key (Bool-cases (string_comparable.beq j id)), All-IsSkipped id fetch ids missing)
  where
    by_key :
        (string_comparable.beq j id ≡ true) ⊎ (string_comparable.beq j id ≡ false)
        → IsSkipped id fetch (j, time)
    by_key (inl same) = inr (
        subst (λ k. fetch k ≡ not_available) (sym ((string_comparable.beq_iff j id).0 same))
          missing)
    by_key (inr other) =
        inl (λ e. let bad = (string_comparable.beq_iff j id).1 e in absurd (ground arith))

abbrev pub NotListed : String → List (String × ℕ) → Type 0
NotListed id ids = All (λ e. e.0 ≢ id) ids

index_of-NotListed :
    (id : String) (xs : List Instance) → IsAbsent id xs → NotListed id (index_of xs)
unfolding index_of
index_of-NotListed id [] absent = tt
index_of-NotListed id (x ∷ xs) absent = (absent.0, index_of-NotListed id xs absent.1)

monitor-writes :
    (h : CbMembership) (round : Round) (all : List (String × ℕ)) (seen : List Instance)
    → round.index ≡ some all
    → active_instances h round.now round.fetch (sort_ids all) ≡ some seen
    → is_cluster_changed h seen ≡ true
    → round.update ≡ updated
    → monitor h (round ∷ []) ≡ (some (index_of seen), rebalance h seen)
unfolding monitor
monitor-writes h round all seen index sees changes updates = rw (index, sees, changes, updates) refl

-- An instance looks at the group between another's entry in the index and its first document, finds
-- the group changed and updates the index. Then the index that its monitor writes does not hold the
-- other, and the monitor of the other that reads this index, finds the group changed and updates it
-- panics: the other does not find itself.
pub registering_is_dropped :
    (h x : CbMembership) (round round' : Round) (all : List (String × ℕ))
    → (seen found : List Instance) → round.fetch x.id ≡ not_available
    → round.index ≡ some all
    → active_instances h round.now round.fetch (sort_ids all) ≡ some seen
    → is_cluster_changed h seen ≡ true
    → round.update ≡ updated
    → round'.index ≡ (monitor h (round ∷ [])).0
    → active_instances x round'.now round'.fetch (sort_ids (index_of seen)) ≡ some found
    → is_cluster_changed x found ≡ true
    → round'.update ≡ updated
    → (written : List (String × ℕ)) × ((monitor h (round ∷ [])).0 ≡ some written)
      × NotListed x.id written
      × ((monitor x (round' ∷ [])).1 ≡ none)
registering_is_dropped h x round round' all seen found missing index sees changes updates read finds
      changes' updates' =
    let absent : IsAbsent x.id seen = subst (WhenAbsent x.id) sees (
      active_instances-WhenAbsent h round.now round.fetch x.id (sort_ids all)
        (All-IsSkipped x.id round.fetch (sort_ids all) missing)) in
    let again : IsAbsent x.id found = subst (WhenAbsent x.id) finds (
      active_instances-WhenAbsent x round'.now round'.fetch x.id (sort_ids (index_of seen)) (
        sort_ids-All (IsSkipped x.id round'.fetch) (index_of seen)
          (index_of-IsAbsent x.id round'.fetch seen absent))) in
    let writes = ap (λ m. m.0) (monitor-writes h round all seen index sees changes updates) in
    (
      index_of seen,
      writes,
      index_of-NotListed x.id seen absent,
      ap (λ m. m.1)
            (monitor-writes x round' (index_of seen) found (read ∙ writes) finds changes' updates')
          ∙ rebalance-IsAbsent x found again,
    )
