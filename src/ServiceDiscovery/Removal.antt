-- ===== src/ServiceDiscovery/Removal.antt =====
-- What the removals of servicediscovery/service_discovery.go leave.
use go_dcp.Prelude.{
  ◌≡◌, refl, ◌∙◌, Bool, true, false, ◌||◌, Option, none, some, List, [], ◌∷◌, String,
  string_comparable, lookup, arith, inl, inr, Option-cases, HasDistinctKeys, ap, if◌then◌else◌,
}
use go_dcp.Wrapper.{CsMap, load}
use go_dcp.Wrapper.Laws.{each, items, lookup-items, range-each, load-delete, items-HasDistinctKeys}
use go_dcp.ServiceDiscovery.Rpc.{Network, ping}
use go_dcp.ServiceDiscovery.Rounds.{check_services}
use go_dcp.ServiceDiscovery.Defs.{
  Service, ServiceDiscovery, remove, remove_each, remove_all, is_failed,
}

abbrev pub names_have : String → List String → Bool
names_have n [] = false
names_have n (m ∷ ms) = string_comparable.beq m n || names_have n ms

-- The names of the entries that a test picks, in front of others.
abbrev picked : (Service → Bool) → List (String × Service) → List String → List String
picked test l acc = each (λ name service names. if test service then name ∷ names else names) l acc

abbrev pub picks : (Service → Bool) → Option Service → Bool
picks test none = false
picks test (some service) = test service

module _ ⦃cs : CsMap String⦄ where
  pub remove_lem :
      (s : ServiceDiscovery) (name n : String)
      → load (remove s name).services n
        ≡ (if string_comparable.beq name n then none else load s.services n)
  unfolding remove
  remove_lem s name n = elim (Option-cases (load s.services name)) [
    | inl absent ↦ ground (arith, absent, string_comparable.beq_iff name n)
    | inr (service, there) ↦ rw (there, remove) (load-delete s.services name n)
  ]

  -- Only the services change.
  pub remove_keeps :
      (s : ServiceDiscovery) (name : String)
      → remove s name ≡ record s { services = (remove s name).services }
  unfolding remove
  remove_keeps s name = elim (Option-cases (load s.services name)) [
    | inl absent ↦ rw (absent, remove)
    | inr (service, there) ↦ rw (there, remove)
  ]

  remove_each_lem :
      (s : ServiceDiscovery) (names : List String) (n : String)
      → load (remove_each s names).services n
        ≡ (if names_have n names then none else load s.services n)
  unfolding remove_each
  remove_each_lem s [] n = refl
  remove_each_lem s (name ∷ names) n =
      ground (arith, remove_each_lem (remove s name) names n, remove_lem s name n)

  pub remove_each_keeps :
      (s : ServiceDiscovery) (names : List String)
      → remove_each s names ≡ record s { services = (remove_each s names).services }
  unfolding remove_each
  remove_each_keeps s [] = refl
  remove_each_keeps s (name ∷ names) =
      remove_each_keeps (remove s name) names
      ∙ ap
          (λ (r : ServiceDiscovery). record r {
            services = (remove_each (remove s name) names).services;
          })
          (remove_keeps s name)

  names_have-picked :
      (test : Service → Bool) (l : List (String × Service)) (acc : List String) (n : String)
      → HasDistinctKeys l
      → names_have n (picked test l acc) ≡ (picks test (lookup n l) || names_have n acc)
  names_have-picked test [] acc n distinct = refl
  names_have-picked test ((k, v) ∷ l) acc n distinct = ground (
    arith,
    names_have-picked test l (k ∷ acc) n distinct.1,
    names_have-picked test l acc n distinct.1,
    string_comparable.beq_iff k n,
  )

  picked-items :
      (test : Service → Bool) (s : ServiceDiscovery) (n : String)
      → names_have n (picked test (items s.services) []) ≡ picks test (load s.services n)
  picked-items test s n = ground (
    arith,
    names_have-picked test (items s.services) [] n (items-HasDistinctKeys s.services),
    lookup-items s.services n,
  )

  -- Which services are removed: those that a test picks.
  pub remove_picked_lem :
      (test : Service → Bool) (s : ServiceDiscovery) (n : String)
      → load (remove_each s (picked test (items s.services) [])).services n
        ≡ (if picks test (load s.services n) then none else load s.services n)
  remove_picked_lem test s n =
      rw (remove_each_lem s (picked test (items s.services) []) n, picked-items test s n)

  pub remove_all-picked :
      (s : ServiceDiscovery)
      → remove_all s ≡ remove_each s (picked (λ _. true) (items s.services) [])
  unfolding remove_all
  remove_all-picked s =
      ap (remove_each s) (range-each s.services (λ name service names. name ∷ names) [])

  pub check_services-picked :
      (net : Network) (s : ServiceDiscovery)
      → check_services net s
        ≡ remove_each s
            (picked (λ service. is_failed (ping net service.client)) (items s.services) [])
  unfolding check_services
  check_services-picked net s = ap (remove_each s) (
      range-each s.services
        (λ name service names. if is_failed (ping net service.client) then name ∷ names else names)
        [])

  pub remove_all_empties :
      (s : ServiceDiscovery) (n : String) → load (remove_all s).services n ≡ none
  remove_all_empties s n =
      rw (remove_all-picked s, remove_picked_lem (λ _. true) s n) (by_load (load s.services n))
    where
      by_load : (o : Option Service) → (if picks (λ _. true) o then none else o) ≡ none
      by_load none = refl
      by_load (some service) = refl

  pub remove_all_keeps :
      (s : ServiceDiscovery) → remove_all s ≡ record s { services = (remove_all s).services }
  remove_all_keeps s = rw (remove_all-picked s) (remove_each_keeps s _)

  pub check_services_keeps :
      (net : Network) (s : ServiceDiscovery)
      → check_services net s ≡ record s { services = (check_services net s).services }
  check_services_keeps net s = rw (check_services-picked net s) (remove_each_keeps s _)
