-- ===== src/Wrapper/Laws.antt =====
-- The laws of wrapper/concurrent_swiss_map.go, from what the table underneath promises.
use go_dcp.Prelude.{
  ℕ, ◌≡◌, refl, ◌∙◌, false, true, Option, none, some, List, [], ◌∷◌, arith, Comparable, lookup,
  insert, lookup-insert, HasDistinctKeys, insert-HasDistinctKeys, length, if◌then◌else◌,
}
use go_dcp.Wrapper.Defs.{
  CsMap, visit, ConcurrentSwissMap, create, delete, load, store, store_if, count, range, to_map,
}

-- A callback that always goes on, over the pairs in order.
abbrev pub each {ℓ} : {K V : Type 0} {S : Type ℓ} → (K → V → S → S) → List (K × V) → S → S
each f [] s = s
each f ((k, v) ∷ r) s = each f r (f k v s)

visit-each :
    {K V S : Type 0} (f : K → V → S → S) (l : List (K × V)) (s : S)
    → visit (λ k v t. (f k v t, false)) l s ≡ each f l s
unfolding visit
visit-each f [] s = refl
visit-each f ((k, v) ∷ r) s = visit-each f r (f k v s)

abbrev pub or_load : {V W : Type 0} → (V → W) → Option V → Option W → Option W
or_load g (some v) o = some (g v)
or_load g none o = o

module _ {K : Type 0} ⦃c : Comparable K⦄ ⦃cs : CsMap K⦄ where
  module _ {V : Type 0} where
    abbrev pub items : ConcurrentSwissMap K V → List (K × V)
    items m = cs.entries V m.m

    pub load-create : (size : ℕ) (k : K) → load (create V size) k ≡ none
    unfolding load create
    load-create size k = cs.get-new V k

    pub load-store :
        (m : ConcurrentSwissMap K V) (k j : K) (v : V)
        → load (store m k v) j ≡ (if c.beq k j then some v else load m j)
    unfolding load store
    load-store m k j v = cs.get-set V m.m k j v

    pub load-delete :
        (m : ConcurrentSwissMap K V) (k j : K)
        → load (delete m k) j ≡ (if c.beq k j then none else load m j)
    unfolding load delete
    load-delete m k j = cs.get-del V m.m k j

    pub load-store_if-some :
        (m : ConcurrentSwissMap K V) (k j : K) (f : Option V → Option V) (v : V)
        → f (load m k) ≡ some v
        → load (store_if m k f) j ≡ (if c.beq k j then some v else load m j)
    unfolding load store_if
    load-store_if-some m k j f v h = cs.get-set_if_some V m.m k j f v h

    pub load-store_if-none :
        (m : ConcurrentSwissMap K V) (k j : K) (f : Option V → Option V)
        → f (load m k) ≡ none
        → load (store_if m k f) j ≡ load m j
    unfolding load store_if
    load-store_if-none m k j f h = cs.get-set_if_none V m.m k j f h

    pub lookup-items : (m : ConcurrentSwissMap K V) (k : K) → lookup k (items m) ≡ load m k
    unfolding load
    lookup-items m k = cs.lookup-entries V m.m k

    pub items-HasDistinctKeys : (m : ConcurrentSwissMap K V) → HasDistinctKeys (items m)
    items-HasDistinctKeys m = cs.entries-HasDistinctKeys V m.m

    pub count-items : (m : ConcurrentSwissMap K V) → count m ≡ length (items m)
    unfolding count
    count-items m = cs.size-entries V m.m

    -- A walk whose callback always goes on is a fold over the items.
    pub range-each :
        {S : Type 0} (m : ConcurrentSwissMap K V) (f : K → V → S → S) (s : S)
        → range m (λ k v t. (f k v t, true)) s ≡ each f (items m) s
    unfolding range
    range-each {S} m f s = cs.walk-visit V S _ m.m s ∙ visit-each f (items m) s

  module _ {V W : Type 0} (g : K → V → W) where
    pub each-store :
        (l : List (K × V)) (t : ConcurrentSwissMap K W) (j : K)
        → HasDistinctKeys l
        → load (each (λ k v u. store u k (g k v)) l t) j ≡ or_load (g j) (lookup j l) (load t j)
    each-store [] t j h = refl
    each-store ((k, v) ∷ r) t j h =
        ground
          (arith, each-store r (store t k (g k v)) j h.1, load-store t k j (g k v), c.beq_iff k j)

    -- Copying a map item by item gives, at each key, the image of the item or the old value.
    pub load-range-store :
        (m : ConcurrentSwissMap K V) (t : ConcurrentSwissMap K W) (j : K)
        → load (range m (λ k v u. (store u k (g k v), true)) t) j
          ≡ or_load (g j) (load m j) (load t j)
    load-range-store m t j =
        rw (range-each m (λ k v u. store u k (g k v)) t)
          (rw (← lookup-items m j) (each-store (items m) t j (items-HasDistinctKeys m)))

    pub each-insert :
        (l : List (K × V)) (t : List (K × W)) (j : K)
        → HasDistinctKeys l
        → lookup j (each (λ k v u. insert k (g k v) u) l t)
          ≡ or_load (g j) (lookup j l) (lookup j t)
    each-insert [] t j h = refl
    each-insert ((k, v) ∷ r) t j h = ground (
      arith,
      each-insert r (insert k (g k v) t) j h.1,
      lookup-insert k j (g k v) t,
      c.beq_iff k j,
    )

    -- The same for a walk that fills a built-in map.
    pub lookup-range-insert :
        (m : ConcurrentSwissMap K V) (t : List (K × W)) (j : K)
        → lookup j (range m (λ k v u. (insert k (g k v) u, true)) t)
          ≡ or_load (g j) (load m j) (lookup j t)
    lookup-range-insert m t j =
        rw (range-each m (λ k v u. insert k (g k v) u) t)
          (rw (← lookup-items m j) (each-insert (items m) t j (items-HasDistinctKeys m)))

    each-insert-HasDistinctKeys :
        (l : List (K × V)) (t : List (K × W))
        → HasDistinctKeys t
        → HasDistinctKeys (each (λ k v u. insert k (g k v) u) l t)
    each-insert-HasDistinctKeys [] t h = h
    each-insert-HasDistinctKeys ((k, v) ∷ r) t h =
        each-insert-HasDistinctKeys r (insert k (g k v) t) (insert-HasDistinctKeys k (g k v) t h)

    pub range-insert-HasDistinctKeys :
        (m : ConcurrentSwissMap K V) (t : List (K × W))
        → HasDistinctKeys t
        → HasDistinctKeys (range m (λ k v u. (insert k (g k v) u, true)) t)
    range-insert-HasDistinctKeys m t h =
        rw (range-each m (λ k v u. insert k (g k v) u) t)
          (each-insert-HasDistinctKeys (items m) t h)

  -- `ToMap` keeps every item and adds none.
  pub lookup-to_map :
      {V : Type 0} (m : ConcurrentSwissMap K V) (j : K) → lookup j (to_map m) ≡ load m j
  unfolding to_map
  lookup-to_map m j = ground (arith, lookup-range-insert (λ k v. v) m [] j)
