-- ===== src/ServiceDiscovery/Numbers.antt =====
-- The numbers that the monitor of servicediscovery/service_discovery.go gives to the members, and
-- what they stream by stream/vbucket_discovery.go.
use go_dcp.Prelude.{
  ℕ, ◌+◌, ◌≤◌, ◌<◌, ◌≡◌, refl, sym, ap, subst, ◌∙◌, Bool, true, false, not, Option, none, some,
  List, [], ◌∷◌, String, string_comparable, map, length, arith, All, if◌then◌else◌,
}
use go_dcp.Wrapper.{CsMap, load}
use go_dcp.Membership.{Model}
use go_dcp.Discovery.{VBucketDiscovery}
use go_dcp.ServiceDiscovery.Rpc.{Network}
use go_dcp.ServiceDiscovery.Rounds.{get_all, set_info, tell_each, monitor}
use go_dcp.ServiceDiscovery.Defs.{Service, ServiceDiscovery}
use go_dcp.ServiceDiscovery.Roles.{IsConsistent}
use go_dcp.ServiceDiscovery.Order.{get_all_lem}
use go_dcp.ServiceDiscovery.Owners.{
  model_at, numbered_from, IsAnswered, each-IsFound, names-numbered, HasOneOwner,
  numbered-HasOneOwner,
}

module _ ⦃cs : CsMap String⦄ where
  tell_each-answered :
      (net : Network) (s : ServiceDiscovery) (total index : ℕ) (l : List Service)
      → All (λ y. (v : Service) × (load s.services y.name ≡ some v)) l
      → ((n : String) → IsAnswered net (load s.services n))
      → tell_each net s total index (map (λ y. y.name) l)
        ≡ numbered_from total index (map (λ y. y.name) l)
  unfolding tell_each
  tell_each-answered net s total index [] there answered = refl
  tell_each-answered net s total index (y ∷ ys) there answered =
      let (v, at) = there.0 in
      let told : IsAnswered net (some v) = rw at at (answered y.name) in
      rw (at, told)
        (ap (λ l. (y.name, model_at (index + 2) total) ∷ l)
          (tell_each-answered net s total (index + 1) ys there.1 answered))

  set_info_lem :
      (s : ServiceDiscovery) (number total : ℕ)
      → ((set_info s number total).0.services ≡ s.services)
        × ((set_info s number total).0.info ≡ some (model_at number total))
  unfolding set_info
  set_info_lem s number total = by_info s.info refl
    where
      by_info :
          (o : Option Model)
          → s.info ≡ o
          → ((set_info s number total).0.services ≡ s.services)
            × ((set_info s number total).0.info ≡ some (model_at number total))
      by_info none e = ground (arith, e)
      by_info (some old) e = ground (arith, e)

  tell_all :
      (net : Network) (s r : ServiceDiscovery) (total : ℕ)
      → IsConsistent s
      → r.services ≡ s.services
      → ((n : String) → IsAnswered net (load s.services n))
      → tell_each net r total 0 (get_all s) ≡ numbered_from total 0 (get_all s)
  tell_all net s r total inv same answered =
      let (l, names, distinct, sorted, registered) = get_all_lem s inv in
      let there : All (λ y. (v : Service) × (load r.services y.name ≡ some v)) l =
        rw same (All-map (λ y h. (h.0, sym (registered y.name) ∙ h.1)) l (each-IsFound l)) in
      subst (λ ns. tell_each net r total 0 ns ≡ numbered_from total 0 ns) (sym names)
        (tell_each-answered net r total 0 l there (rw same answered))
    where
      All-map :
          {P Q : Service → Type 0} (f : (y : Service) → P y → Q y) (xs : List Service)
          → All P xs
          → All Q xs
      All-map f [] h = tt
      All-map f (x ∷ xs) h = (f x h.0, All-map f xs h.1)

  monitor_as_leader :
      (net : Network) (s : ServiceDiscovery)
      → s.am_i_leader ≡ true
      → monitor (λ r. r) net s ≡ (
        (set_info s 1 (length (get_all s) + 1)).0,
        (set_info s 1 (length (get_all s) + 1)).1,
        tell_each net
            (set_info s 1 (length (get_all s) + 1)).0
            (length (get_all s) + 1)
            0
            (get_all s),
      )
  unfolding monitor
  monitor_as_leader net s leads = if_false (not s.am_i_leader) _ _ (ap not leads)
    where
      if_false : {A : Type 0} (b : Bool) (x y : A) → b ≡ false → (if b then x else y) ≡ y
      if_false true x y h = absurd (ground arith)
      if_false false x y h = refl

  -- A leader that follows the invariant, in a round that every registered member answers, takes the
  -- number 1 and tells the registered members the numbers from 2, in the order of GetAll, so with
  -- Get every vBucket is streamed once: there is one model among those whose Get answers with a
  -- range that holds the vBucket, and no other. There are no more members than vBuckets.
  pub monitor_streams_once :
      (net : Network) (s : ServiceDiscovery) (d : VBucketDiscovery) (vb : ℕ)
      → IsConsistent s
      → s.am_i_leader ≡ true
      → ((n : String) → IsAnswered net (load s.services n))
      → length (get_all s) + 1 ≤ d.v_bucket_number
      → d.v_bucket_number ≤ 65536
      → vb < d.v_bucket_number
      → (leader : Model) × ((monitor (λ r. r) net s).0.info ≡ some leader)
        × (map (λ t. t.0) (monitor (λ r. r) net s).2 ≡ get_all s)
        × HasOneOwner d vb (leader ∷ map (λ t. t.1) (monitor (λ r. r) net s).2)
  monitor_streams_once net s d vb inv leads answered few small inside =
      let total = length (get_all s) + 1 in
      let (same, kept) = set_info_lem s 1 total in
      let told = tell_all net s (set_info s 1 total).0 total inv same answered in
      subst (λ r. Once r) (sym (monitor_as_leader net s leads))
        (subst (λ ts. Once ((set_info s 1 total).0, (set_info s 1 total).1, ts)) (sym told)
          (
            model_at 1 total,
            kept,
            names-numbered total 0 (get_all s),
            numbered-HasOneOwner d (get_all s) vb few small inside,
          ))
    where
      Once : ServiceDiscovery × List Model × List (String × Model) → Type 0
      Once r =
          (leader : Model) × (r.0.info ≡ some leader)
          × (map (λ t. t.0) r.2 ≡ get_all s)
          × HasOneOwner d vb (leader ∷ map (λ t. t.1) r.2)
