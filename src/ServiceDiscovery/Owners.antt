-- ===== src/ServiceDiscovery/Owners.antt =====
-- Models with the numbers from 1 on, one for each member, and what they stream by
-- stream/vbucket_discovery.go.
use go_dcp.Prelude.{
  ℕ, zero, suc, ◌+◌, ◌≤◌, ◌<◌, ◌≡◌, refl, sym, ap, subst, ◌∙◌, inl, inr, Option, none, some, List,
  [], ◌∷◌, String, string_comparable, map, length, get_elem?, arith, All, Bool-cases,
}
use go_dcp.Membership.{Model}
use go_dcp.Discovery.{VBucketDiscovery, get}
use go_dcp.Discovery.Ranges.{Streams, assigned_once}
use go_dcp.ServiceDiscovery.Rpc.{Network, call_rebalance}
use go_dcp.ServiceDiscovery.Defs.{Service}
use go_dcp.ServiceDiscovery.Order.{find}

abbrev pub model_at : ℕ → ℕ → Model
model_at number total = record { member_number = number; total_members = total }

-- What the members are told when all of them answer.
abbrev pub numbered_from : ℕ → ℕ → List String → List (String × Model)
numbered_from total index [] = []
numbered_from total index (name ∷ names) =
    (name, model_at (index + 2) total) ∷ numbered_from total (index + 1) names

abbrev pub IsAnswered : Network → Option Service → Type 0
IsAnswered net none = Unit
IsAnswered net (some service) = call_rebalance net service.client ≡ none

abbrev IsFound : List Service → String → Type 0
IsFound l n = (v : Service) × (find n l ≡ some v)

All-IsFound :
    (x : Service) (xs l : List Service)
    → All (λ y. IsFound l y.name) xs
    → All (λ y. IsFound (x ∷ l) y.name) xs
All-IsFound x [] l h = tt
All-IsFound x (y ∷ ys) l h = (
  elim (Bool-cases (string_comparable.beq x.name y.name)) [
    | inl same ↦ (x, rw same)
    | inr other ↦ (h.0.0, rw other h.0.1)
  ],
  All-IsFound x ys l h.1,
)

pub each-IsFound : (l : List Service) → All (λ y. IsFound l y.name) l
each-IsFound [] = tt
each-IsFound (x ∷ xs) = (
  (x, rw ((string_comparable.beq_iff x.name x.name).1 refl)),
  All-IsFound x xs xs (each-IsFound xs),
)

pub names-numbered :
    (total index : ℕ) (names : List String)
    → map (λ t. t.0) (numbered_from total index names) ≡ names
names-numbered total index [] = refl
names-numbered total index (name ∷ names) =
    ap (λ l. name ∷ l) (names-numbered total (index + 1) names)

model-numbered :
    (total index : ℕ) (names : List String) (k : ℕ)
    → k < length names
    → get_elem? (map (λ t. t.1) (numbered_from total index names)) k
      ≡ some (model_at (index + k + 2) total)
model-numbered total index [] k h = absurd (omega arith)
model-numbered total index (name ∷ names) zero h = ground arith
model-numbered total index (name ∷ names) (suc k) h =
    let shift : index + 1 + k + 2 ≡ index + suc k + 2 = omega arith in
    model-numbered total (index + 1) names k (omega arith)
    ∙ ap (λ (n : ℕ). some (model_at n total)) shift

model-numbered_inside :
    (total index : ℕ) (names : List String) (k : ℕ) (m : Model)
    → get_elem? (map (λ t. t.1) (numbered_from total index names)) k ≡ some m
    → k < length names
model-numbered_inside total index [] k m h = absurd (ground arith)
model-numbered_inside total index (name ∷ names) zero m h = omega arith
model-numbered_inside total index (name ∷ names) (suc k) m h =
    omega (arith, model-numbered_inside total (index + 1) names k m h)

-- The models of the leader and of the members in order.
abbrev numbered : List String → List Model
numbered names =
    model_at 1 (length names + 1) ∷ map (λ t. t.1) (numbered_from (length names + 1) 0 names)

numbered-at :
    (names : List String) (k : ℕ)
    → k < length names + 1
    → get_elem? (numbered names) k ≡ some (model_at (suc k) (length names + 1))
numbered-at names zero h = refl
numbered-at names (suc k) h =
    let shift : 0 + k + 2 ≡ suc (suc k) = omega arith in
    model-numbered (length names + 1) 0 names k (omega arith)
    ∙ ap (λ (n : ℕ). some (model_at n (length names + 1))) shift

numbered-inside :
    (names : List String) (k : ℕ) (m : Model)
    → get_elem? (numbered names) k ≡ some m
    → k < length names + 1
numbered-inside names zero m h = omega arith
numbered-inside names (suc k) m h =
    omega (arith, model-numbered_inside (length names + 1) 0 names k m h)

-- One model in the list has the vBucket in the range that Get answers for it, and no other.
abbrev pub HasOneOwner : VBucketDiscovery → ℕ → List Model → Type 0
HasOneOwner d vb models =
    (k : ℕ) × (m : Model) × (get_elem? models k ≡ some m)
    × Streams (get d m) vb
    × ((l : ℕ) (m' : Model) → get_elem? models l ≡ some m' → Streams (get d m') vb → l ≡ k)

pub numbered-HasOneOwner :
    (d : VBucketDiscovery) (names : List String) (vb : ℕ)
    → length names + 1 ≤ d.v_bucket_number
    → d.v_bucket_number ≤ 65536
    → vb < d.v_bucket_number
    → HasOneOwner d vb (numbered names)
numbered-HasOneOwner d names vb few small inside =
    owner (assigned_once d (length names + 1) vb (omega arith) few small inside)
  where
    owner :
        (m : ℕ) × (0 < m)
          × (m ≤ length names + 1)
          × Streams (get d (model_at m (length names + 1))) vb
          × ((k : ℕ) → Streams (get d (model_at k (length names + 1))) vb → k ≡ m)
        → HasOneOwner d vb (numbered names)
    owner (zero, pos, le, streams, once) = absurd (omega arith)
    owner (suc k, pos, le, streams, once) = (
      k,
      model_at (suc k) (length names + 1),
      numbered-at names k (omega arith),
      streams,
      λ l m' at also.
          let number : some m' ≡ some (model_at (suc l) (length names + 1)) =
            sym at ∙ numbered-at names l (numbered-inside names l m' at) in
          let same : m' ≡ model_at (suc l) (length names + 1) = cc in
          let e : suc l ≡ suc k = once (suc l) (subst (λ r. Streams (get d r) vb) same also) in
          omega (arith, e),
    )
