-- ===== src/Wrapper/Defs.antt =====
-- wrapper/concurrent_swiss_map.go: the interface of the table, and the methods over it.
use go_dcp.Prelude.{
  ℕ, ◌≡◌, Bool, true, not, Option, none, some, List, [], ◌∷◌, Comparable, lookup, insert,
  HasDistinctKeys, length, if◌then◌else◌,
}

-- A callback over the entries in order, which stops the walk by answering `true`.
unfoldable pub visit {ℓ} :
    {K V : Type 0} {S : Type ℓ} → (K → V → S → S × Bool) → List (K × V) → S → S
visit f [] s = s
visit f ((k, v) ∷ r) s =
    let (s', stop) = f k v s in let rest = visit f r s' in if stop then s' else rest

-- `set_if` is handed the old value, if there is one, and says what to write, if anything.
-- `entries` is the order in which `range` visits; the package promises none.
pub record CsMap (K : Type 0) ⦃c : Comparable K⦄ : Type 1 where
  pub Table : Type 0 → Type 0
  pub new : (V : Type 0) → Table V
  pub get : (V : Type 0) → Table V → K → Option V
  pub set : (V : Type 0) → Table V → K → V → Table V
  pub del : (V : Type 0) → Table V → K → Table V
  pub set_if : (V : Type 0) → Table V → K → (Option V → Option V) → Table V
  pub entries : (V : Type 0) → Table V → List (K × V)
  pub walk : (V S : Type 0) → (K → V → S → S × Bool) → Table V → S → S
  pub size : (V : Type 0) → Table V → ℕ
  pub get-new : (V : Type 0) (k : K) → get V (new V) k ≡ none
  pub get-set :
      (V : Type 0) (m : Table V) (k j : K) (v : V)
      → get V (set V m k v) j ≡ (if c.beq k j then some v else get V m j)
  pub get-del :
      (V : Type 0) (m : Table V) (k j : K)
      → get V (del V m k) j ≡ (if c.beq k j then none else get V m j)
  pub get-set_if_some :
      (V : Type 0) (m : Table V) (k j : K) (f : Option V → Option V) (v : V)
      → f (get V m k) ≡ some v
      → get V (set_if V m k f) j ≡ (if c.beq k j then some v else get V m j)
  pub get-set_if_none :
      (V : Type 0) (m : Table V) (k j : K) (f : Option V → Option V)
      → f (get V m k) ≡ none
      → get V (set_if V m k f) j ≡ get V m j
  pub lookup-entries : (V : Type 0) (m : Table V) (k : K) → lookup k (entries V m) ≡ get V m k
  pub entries-HasDistinctKeys : (V : Type 0) (m : Table V) → HasDistinctKeys (entries V m)
  pub walk-visit :
      (V S : Type 0) (f : K → V → S → S × Bool) (m : Table V) (s : S)
      → walk V S f m s ≡ visit f (entries V m) s
  pub size-entries : (V : Type 0) (m : Table V) → size V m ≡ length (entries V m)

pub record ConcurrentSwissMap (K V : Type 0) ⦃c : Comparable K⦄ ⦃cs : CsMap K⦄ : Type 0 where
  pub m : cs.Table V

module _ {K : Type 0} ⦃c : Comparable K⦄ ⦃cs : CsMap K⦄ where
  -- The size is a hint to the allocator.
  unfoldable pub create : (V : Type 0) → ℕ → ConcurrentSwissMap K V
  create V size = record { m = cs.new V }

  module _ {V : Type 0} where
    unfoldable pub delete : ConcurrentSwissMap K V → K → ConcurrentSwissMap K V
    delete m key = record { m = cs.del V m.m key }

    unfoldable pub load : ConcurrentSwissMap K V → K → Option V
    load m key = cs.get V m.m key

    unfoldable pub store : ConcurrentSwissMap K V → K → V → ConcurrentSwissMap K V
    store m key value = record { m = cs.set V m.m key value }

    unfoldable pub store_if :
        ConcurrentSwissMap K V → K → (Option V → Option V) → ConcurrentSwissMap K V
    store_if m key condition_fn = record { m = cs.set_if V m.m key condition_fn }

    unfoldable pub count : ConcurrentSwissMap K V → ℕ
    count m = cs.size V m.m

    -- The callback returns the state that it captures, and whether to go on.
    unfoldable pub range : {S : Type 0} → ConcurrentSwissMap K V → (K → V → S → S × Bool) → S → S
    range {S} m f s =
        cs.walk V S (λ key value t. let (t', more) = f key value t in (t', not more)) m.m s

    unfoldable pub to_map : ConcurrentSwissMap K V → List (K × V)
    unfolding range
    to_map m = range m (λ key value result. (insert key value result, true)) []
