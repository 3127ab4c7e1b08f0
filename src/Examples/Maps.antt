-- ===== src/Examples/Maps.antt =====
-- A map that is written as JSON and read again, for wrapper/concurrent_swiss_map.go.
use go_dcp.Prelude.{
  ℕ, ◌≡◌, refl, sym, ap, ◌∙◌, Option, none, some, List, [], ◌∷◌, nat_comparable, ◌>>=◌,
}
use go_dcp.Wrapper.{ConcurrentSwissMap, create, load, store, range, to_map, visit}
use go_dcp.Wrapper.Laws.{or_load}
use go_dcp.Wrapper.Json.{JsonMaps, marshal_json, unmarshal_json, unmarshal_json-marshal_json}
use go_dcp.Examples.Fixtures.{nat_table}

abbrev flat : List (ℕ × ℕ) → List ℕ
flat [] = []
flat ((k, v) ∷ l) = k ∷ v ∷ flat l

abbrev pairs : List ℕ → Option (List (ℕ × ℕ))
pairs [] = some []
pairs (k ∷ []) = none
pairs (k ∷ v ∷ text) = pairs text >>= λ l. some ((k, v) ∷ l)

pairs-flat : (l : List (ℕ × ℕ)) → pairs (flat l) ≡ some l
pairs-flat [] = refl
pairs-flat ((k, v) ∷ l) = ap (λ o. o >>= λ r. some ((k, v) ∷ r)) (pairs-flat l)

-- A map is written as its keys and values in turn.
abbrev in_turn : JsonMaps ℕ ℕ
in_turn = record {
  encode = λ l. some (flat l);
  decode = pairs;
  decode-encode = λ l text distinct encoded.
      (l, ap (λ o. o >>= pairs) (sym encoded) ∙ pairs-flat l, distinct, λ k. refl);
}

abbrev written : ConcurrentSwissMap ℕ ℕ
written = store (store (create ℕ 16) 3 30) 5 50

abbrev receiver : ConcurrentSwissMap ℕ ℕ
receiver = store (store (create ℕ 16) 3 31) 7 70

unmarshal_json-marshal_json_example :
    (t : ConcurrentSwissMap ℕ ℕ) × (unmarshal_json in_turn receiver (3 ∷ 30 ∷ 5 ∷ 50 ∷ []) ≡ some t)
    × ((j : ℕ) → load t j ≡ or_load (λ v. v) (load written j) (load receiver j))
unfolding marshal_json to_map range visit create store
unmarshal_json-marshal_json_example =
    unmarshal_json-marshal_json in_turn written receiver (3 ∷ 30 ∷ 5 ∷ 50 ∷ []) refl
