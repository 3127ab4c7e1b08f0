-- ===== src/ServiceDiscovery/Order.antt =====
-- The names that GetAll of servicediscovery/service_discovery.go answers.
use go_dcp.Prelude.{
  ℕ, ◌≤◌, ◌≡◌, refl, ap, subst, ◌∙◌, inl, inr, true, Option, none, some, List, [], ◌∷◌, String,
  string_comparable, lookup, HasDistinctKeys, map, ltb, arith, All, ◌⊎◌, Bool-cases, if◌then◌else◌,
}
use go_dcp.Wrapper.{CsMap, load}
use go_dcp.Wrapper.Laws.{each, items, lookup-items, range-each, items-HasDistinctKeys}
use go_dcp.ServiceDiscovery.Roles.{IsServed, IsConsistent}
use go_dcp.ServiceDiscovery.Rounds.{services_of, get_all}
use go_dcp.ServiceDiscovery.Defs.{Service, ServiceDiscovery, place, sort_services}

-- The first service with a name.
abbrev pub find : String → List Service → Option Service
find n [] = none
find n (s ∷ ss) = if string_comparable.beq s.name n then some s else find n ss

abbrev pub HasDistinctNames : List Service → Type 0
HasDistinctNames [] = Unit
HasDistinctNames (s ∷ ss) = (find s.name ss ≡ none) × HasDistinctNames ss

-- By the time of joining, each with all that come later.
abbrev pub IsSorted : List Service → Type 0
IsSorted [] = Unit
IsSorted (s ∷ ss) = All (λ t. s.cluster_join_time ≤ t.cluster_join_time) ss × IsSorted ss

find-place :
    (s : Service) (ss : List Service) (n : String)
    → find s.name ss ≡ none
    → find n (place s ss) ≡ (if string_comparable.beq s.name n then some s else find n ss)
unfolding place
find-place s [] n new = refl
find-place s (x ∷ xs) n new = ground (
  arith,
  find-place s xs n,
  string_comparable.beq_iff x.name n,
  string_comparable.beq_iff s.name n,
  string_comparable.beq_iff x.name s.name,
)

place-HasDistinctNames :
    (s : Service) (ss : List Service)
    → find s.name ss ≡ none
    → HasDistinctNames ss
    → HasDistinctNames (place s ss)
unfolding place
place-HasDistinctNames s [] new distinct = (refl, tt)
place-HasDistinctNames s (x ∷ xs) new distinct = ground (
  arith,
  place-HasDistinctNames s xs,
  find-place s xs x.name,
  string_comparable.beq_iff s.name x.name,
  string_comparable.beq_iff x.name s.name,
)

place-All :
    (t : ℕ) (s : Service) (ss : List Service)
    → t ≤ s.cluster_join_time
    → All (λ x. t ≤ x.cluster_join_time) ss
    → All (λ x. t ≤ x.cluster_join_time) (place s ss)
unfolding place
place-All t s [] le all = (le, tt)
place-All t s (x ∷ xs) le all = ground (arith, place-All t s xs le all.1)

All-weaken :
    (t u : ℕ) (ss : List Service)
    → t ≤ u
    → All (λ x. u ≤ x.cluster_join_time) ss
    → All (λ x. t ≤ x.cluster_join_time) ss
All-weaken t u [] le all = tt
All-weaken t u (x ∷ xs) le all = (omega arith, All-weaken t u xs le all.1)

place-IsSorted : (s : Service) (ss : List Service) → IsSorted ss → IsSorted (place s ss)
unfolding place
place-IsSorted s [] sorted = (tt, tt)
place-IsSorted s (x ∷ xs) sorted = elim (Bool-cases (ltb x.cluster_join_time s.cluster_join_time)) [
  | inl before ↦
      rw before
        (place-All x.cluster_join_time s xs (ground arith) sorted.0, place-IsSorted s xs sorted.1)
  | inr after ↦
      let le : s.cluster_join_time ≤ x.cluster_join_time = ground arith in
      rw after ((le, All-weaken s.cluster_join_time x.cluster_join_time xs le sorted.0), sorted)
]

find-sort_services :
    (ss : List Service) (n : String) → HasDistinctNames ss → find n (sort_services ss) ≡ find n ss
unfolding sort_services
find-sort_services [] n distinct = refl
find-sort_services (s ∷ ss) n distinct =
    find-place s (sort_services ss) n (find-sort_services ss s.name distinct.1 ∙ distinct.0)
    ∙ ap (λ o. if string_comparable.beq s.name n then some s else o)
        (find-sort_services ss n distinct.1)

sort_services-HasDistinctNames :
    (ss : List Service) → HasDistinctNames ss → HasDistinctNames (sort_services ss)
unfolding sort_services
sort_services-HasDistinctNames [] distinct = tt
sort_services-HasDistinctNames (s ∷ ss) distinct =
    place-HasDistinctNames s (sort_services ss)
      (find-sort_services ss s.name distinct.1 ∙ distinct.0)
      (sort_services-HasDistinctNames ss distinct.1)

sort_services-IsSorted : (ss : List Service) → IsSorted (sort_services ss)
unfolding sort_services
sort_services-IsSorted [] = tt
sort_services-IsSorted (s ∷ ss) = place-IsSorted s (sort_services ss) (sort_services-IsSorted ss)

abbrev Keyed : List (String × Service) → Type 0
Keyed [] = Unit
Keyed ((k, v) ∷ l) = (v.name ≡ k) × Keyed l

-- The walk of GetAll, from a list that is collected already.
abbrev collected : List (String × Service) → List Service → List Service
collected l acc = each (λ name service services. service ∷ services) l acc

abbrev or_found : Option Service → Option Service → Option Service
or_found (some s) o = some s
or_found none o = o

served-Keyed :
    (l : List (String × Service))
    → HasDistinctKeys l
    → ((n : String) → IsServed n (lookup n l))
    → Keyed l
served-Keyed [] distinct served = tt
served-Keyed ((k, v) ∷ l) distinct served =
    let here : string_comparable.beq k k ≡ true = (string_comparable.beq_iff k k).1 refl in
    (named (rw here at (served k)), served-Keyed l distinct.1 later)
  where
    named : IsServed k (some v) → v.name ≡ k
    named h = h.0

    later : (n : String) → IsServed n (lookup n l)
    later n = elim (Bool-cases (string_comparable.beq k n)) [
      | inl same ↦
          let e : k ≡ n = (string_comparable.beq_iff k n).0 same in
          subst (λ m. IsServed m (lookup m l)) e (rw distinct.0 tt)
      | inr other ↦ rw other at (served n)
    ]

find-collected :
    (l : List (String × Service)) (acc : List Service) (n : String)
    → HasDistinctKeys l
    → Keyed l
    → find n (collected l acc) ≡ or_found (lookup n l) (find n acc)
find-collected [] acc n distinct keyed = refl
find-collected ((k, v) ∷ l) acc n distinct keyed = ground (
  arith,
  find-collected l (v ∷ acc) n distinct.1 keyed.1,
  string_comparable.beq_iff k n,
  string_comparable.beq_iff v.name n,
)

collected-HasDistinctNames :
    (l : List (String × Service)) (acc : List Service)
    → HasDistinctKeys l
    → Keyed l
    → HasDistinctNames acc
    → ((n : String) → (lookup n l ≡ none) ⊎ (find n acc ≡ none))
    → HasDistinctNames (collected l acc)
collected-HasDistinctNames [] acc distinct keyed names apart = names
collected-HasDistinctNames ((k, v) ∷ l) acc distinct keyed names apart =
    collected-HasDistinctNames l (v ∷ acc) distinct.1 keyed.1 (new, names) later
  where
    new : find v.name acc ≡ none
    new = ground (arith, apart k, string_comparable.beq_iff k k, keyed.0)

    later : (n : String) → (lookup n l ≡ none) ⊎ (find n (v ∷ acc) ≡ none)
    later n = ground (
      arith,
      apart n,
      distinct.0,
      keyed.0,
      string_comparable.beq_iff k n,
      string_comparable.beq_iff v.name n,
    )

module _ ⦃cs : CsMap String⦄ where
  services_of-collected : (s : ServiceDiscovery) → services_of s ≡ collected (items s.services) []
  unfolding services_of
  services_of-collected s = range-each s.services (λ name service services. service ∷ services) []

  -- GetAll answers the names of all registered services, each once, by their times of joining.
  pub get_all_lem :
      (s : ServiceDiscovery)
      → IsConsistent s
      → (l : List Service) × (get_all s ≡ map (λ service. service.name) l)
        × HasDistinctNames l
        × IsSorted l
        × ((n : String) → find n l ≡ load s.services n)
  unfolding get_all
  get_all_lem s inv =
      let ss = services_of s in
      let l = items s.services in
      let apart = items-HasDistinctKeys s.services in
      let keyed : Keyed l =
        served-Keyed l apart (λ n. rw (lookup-items s.services n) (inv.served n)) in
      let distinct : HasDistinctNames ss =
        rw (services_of-collected s)
          (collected-HasDistinctNames l [] apart keyed tt (λ n. inr refl)) in
      (
        sort_services ss,
        refl,
        sort_services-HasDistinctNames ss distinct,
        sort_services-IsSorted ss,
        λ n.
            find-sort_services ss n distinct
            ∙ rw
                (
                  services_of-collected s,
                  find-collected l [] n apart keyed,
                  lookup-items s.services n,
                )
                (or_found-none (load s.services n)),
      )
    where
      or_found-none : (o : Option Service) → or_found o none ≡ o
      or_found-none none = refl
      or_found-none (some v) = refl
