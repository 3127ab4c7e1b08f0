-- ===== src/CbMembership/Shared.antt =====
-- What the instances of a group stream: couchbase/membership.go with stream/vbucket_discovery.go.
use go_dcp.Prelude.{
  ℕ, zero, suc, ◌≡◌, ◌<◌, ◌≤◌, refl, sym, ap, subst, ◌∙◌, Option, none, some, List, [], ◌∷◌, length,
  get_elem?, arith, if◌then◌else◌,
}
use go_dcp.Membership.{Model, is_changed}
use go_dcp.Discovery.{VBucketDiscovery, get}
use go_dcp.Discovery.Ranges.{Streams, assigned_once}
use go_dcp.CbMembership.Defs.{Instance, CbMembership, rebalance}
use go_dcp.CbMembership.Numbers.{HasDistinctIds, numbered, rebalance_lem}

-- An instance whose rebalance publishes a model for which Get answers with a range that holds `vb`.
abbrev pub Takes : VBucketDiscovery → Option (CbMembership × List Model) → ℕ → Type 0
Takes s none vb = ⊥
Takes s (some (h, [])) vb = ⊥
Takes s (some (h, m ∷ ms)) vb = Streams (get s m) vb

get_elem?-inside :
    (xs : List Instance) (k : ℕ) → k < length xs → (i : Instance) × (get_elem? xs k ≡ some i)
get_elem?-inside [] k lt = absurd (omega arith)
get_elem?-inside (x ∷ xs) zero lt = (x, refl)
get_elem?-inside (x ∷ xs) (suc k) lt = get_elem?-inside xs k (omega arith)

module _ (membership_of : Instance → CbMembership)
    (own_id : (i : Instance) → (membership_of i).id ≡ i.id)
    (no_info : (i : Instance) → (membership_of i).info ≡ none) (xs : List Instance)
    (distinct : HasDistinctIds xs) where
  rebalance-first :
      (k : ℕ) (i : Instance)
      → get_elem? xs k ≡ some i
      → rebalance (membership_of i) xs
        ≡ some (record (membership_of i) { last_active_instances = xs }, numbered k xs ∷ [])
  unfolding is_changed
  rebalance-first k i at =
      rebalance_lem (membership_of i) xs k i distinct at (own_id i)
      ∙ ap
          (λ info. some (
            record (membership_of i) { last_active_instances = xs },
            if is_changed (numbered k xs) info then numbered k xs ∷ [] else [],
          ))
          (no_info i)

  -- Instances that have just started and see the same list of active instances, with different ids
  -- and no more than there are vBuckets, stream every vBucket once: when each has rebalanced and
  -- Get has answered for the model that it published, there is one place in the list whose
  -- instance has the vBucket in its range, and no other.
  pub group_streams_once :
      (s : VBucketDiscovery) (vb : ℕ)
      → 0 < length xs
      → length xs ≤ s.v_bucket_number
      → s.v_bucket_number ≤ 65536
      → vb < s.v_bucket_number
      → (k : ℕ) × (i : Instance) × (get_elem? xs k ≡ some i)
        × Takes s (rebalance (membership_of i) xs) vb
        × ((l : ℕ) (j : Instance)
            → get_elem? xs l ≡ some j
            → Takes s (rebalance (membership_of j) xs) vb
            → l ≡ k)
  group_streams_once s vb pos few small inside =
      place (assigned_once s (length xs) vb pos few small inside)
    where
      at_number : ℕ → Model
      at_number m = record { member_number = m; total_members = length xs }

      place :
          (m : ℕ) × (0 < m)
            × (m ≤ length xs)
            × Streams (get s (at_number m)) vb
            × ((l : ℕ) → Streams (get s (at_number l)) vb → l ≡ m)
          → (k : ℕ) × (i : Instance) × (get_elem? xs k ≡ some i)
            × Takes s (rebalance (membership_of i) xs) vb
            × ((l : ℕ) (j : Instance)
                → get_elem? xs l ≡ some j
                → Takes s (rebalance (membership_of j) xs) vb
                → l ≡ k)
      place (zero, positive, le, streams, once) = absurd (omega arith)
      place (suc k, positive, le, streams, once) =
          let (i, at) = get_elem?-inside xs k (omega arith) in
          (
            k,
            i,
            at,
            subst (λ r. Takes s r vb) (sym (rebalance-first k i at)) streams,
            λ l j there takes.
                let same : suc l ≡ suc k =
                  once (suc l) (subst (λ r. Takes s r vb) (rebalance-first l j there) takes) in
                omega (arith, same),
          )
