-- ===== src/Wrapper/Json.antt =====
-- wrapper/concurrent_swiss_map.go: MarshalJSON and UnmarshalJSON. The encoder of built-in maps is the
-- library sonic, so it is an interface: it may fail, and what it encodes it also decodes, to a map
-- with the same values.
use go_dcp.Prelude.{
  ℕ, ◌≡◌, refl, ap, ◌∙◌, Option, none, some, List, [], ◌∷◌, Comparable, lookup, HasDistinctKeys,
  ◌>>=◌,
}
use go_dcp.Wrapper.Defs.{CsMap, ConcurrentSwissMap, create, load, store, to_map}
use go_dcp.Wrapper.Laws.{
  load-create, each, or_load, each-store, lookup-to_map, range-insert-HasDistinctKeys,
}

pub record JsonMaps (K V : Type 0) ⦃c : Comparable K⦄ : Type 0 where
  pub encode : List (K × V) → Option (List ℕ)
  pub decode : List ℕ → Option (List (K × V))
  pub decode-encode :
      (l : List (K × V)) (text : List ℕ)
      → HasDistinctKeys l
      → encode l ≡ some text
      → (l' : List (K × V)) × (decode text ≡ some l')
        × HasDistinctKeys l'
        × ((k : K) → lookup k l' ≡ lookup k l)

module _ {K V : Type 0} ⦃c : Comparable K⦄ ⦃cs : CsMap K⦄ (json : JsonMaps K V) where
  unfoldable pub marshal_json : ConcurrentSwissMap K V → Option (List ℕ)
  unfolding to_map
  marshal_json m = json.encode (to_map m)

  unfoldable pub store_all : List (K × V) → ConcurrentSwissMap K V → ConcurrentSwissMap K V
  store_all [] m = m
  store_all ((k, v) ∷ result) m = store_all result (store m k v)

  -- The receiver, or `none` for an error.
  unfoldable pub unmarshal_json : ConcurrentSwissMap K V → List ℕ → Option (ConcurrentSwissMap K V)
  unfolding store_all
  unmarshal_json m text = json.decode text >>= λ result. some (store_all result m)

  store_all-each :
      (l : List (K × V)) (m : ConcurrentSwissMap K V)
      → store_all l m ≡ each (λ k v u. store u k v) l m
  unfolding store_all
  store_all-each [] m = refl
  store_all-each ((k, v) ∷ l) m = store_all-each l (store m k v)

  -- Stored into a new map, distinct keys have the values of the list.
  pub load-store_all :
      (l : List (K × V)) (j : K)
      → HasDistinctKeys l
      → load (store_all l (create V 1024)) j ≡ lookup j l
  load-store_all l j distinct =
      ap (λ u. load u j) (store_all-each l (create V 1024))
      ∙ each-store (λ k v. v) l (create V 1024) j distinct
      ∙ ap (or_load (λ v. v) (lookup j l)) (load-create {V = V} 1024 j)
      ∙ or_none (lookup j l)
    where
      or_none : (o : Option V) → or_load (λ (v : V). v) o none ≡ o
      or_none none = refl
      or_none (some v) = refl

  -- When MarshalJSON encodes a map m, UnmarshalJSON of its text works on any map t, and leaves at
  -- each key the value of m, or, where m has none, what t had.
  pub unmarshal_json-marshal_json :
      (m t : ConcurrentSwissMap K V) (text : List ℕ)
      → marshal_json m ≡ some text
      → (t' : ConcurrentSwissMap K V) × (unmarshal_json t text ≡ some t')
        × ((j : K) → load t' j ≡ or_load (λ v. v) (load m j) (load t j))
  unfolding marshal_json unmarshal_json
  unmarshal_json-marshal_json m t text encoded =
      let (l, decoded, distinct, same) =
        json.decode-encode (to_map m) text (range-insert-HasDistinctKeys (λ k v. v) m [] tt)
          encoded in
      (
        store_all l t,
        ap (λ o. o >>= λ result. some (store_all result t)) decoded,
        (λ j.
            ap (λ u. load u j) (store_all-each l t)
            ∙ each-store (λ k v. v) l t j distinct
            ∙ ap (λ o. or_load (λ v. v) o (load t j)) (same j ∙ lookup-to_map m j)),
      )
