-- ===== src/Rollback/Numbers.antt =====
-- The merge of GetVBucketSeqNos in couchbase/client.go keeps the highest number of each vBucket.
use go_dcp.Prelude.{
  ℕ, ◌≤◌, ◌≡◌, refl, subst, ◌⊎◌, inl, inr, ◌&&◌, some, List, [], ◌∷◌, nat_comparable, arith, ltb,
  ◌==◌, ==_iff, Bool-cases, Option-cases, if◌then◌else◌,
}
use go_dcp.Wrapper.{CsMap, ConcurrentSwissMap, load, store}
use go_dcp.Wrapper.Laws.{load-store}
use go_dcp.Rollback.Defs.{VbSeqNoEntry, is_higher, merge_seq_nos}

module _ ⦃cs : CsMap ℕ⦄ where
  abbrev pub Reported : ℕ → ℕ → List VbSeqNoEntry → Type 0
  Reported j n [] = ⊥
  Reported j n (e ∷ es) = ((e.vb_id ≡ j) × (e.seq_no ≡ n)) ⊎ Reported j n es

  abbrev pub KnownFrom : ConcurrentSwissMap ℕ ℕ → ℕ → ℕ → Type 0
  KnownFrom m j n = (k : ℕ) × (load m j ≡ some k) × (n ≤ k)

  abbrev merged : VbSeqNoEntry → ConcurrentSwissMap ℕ ℕ → ConcurrentSwissMap ℕ ℕ
  merged e m = if is_higher e.seq_no (load m e.vb_id) then store m e.vb_id e.seq_no else m

  merged-load :
      (e : VbSeqNoEntry) (m : ConcurrentSwissMap ℕ ℕ) (j : ℕ)
      → load (merged e m) j
        ≡ (if is_higher e.seq_no (load m e.vb_id) && e.vb_id == j then some e.seq_no else load m j)
  merged-load e m j = elim (Bool-cases (is_higher e.seq_no (load m e.vb_id))) [
    | inl up ↦ rw up (load-store m e.vb_id j e.seq_no)
    | inr kept ↦ rw kept
  ]

  merged-keeps :
      (e : VbSeqNoEntry) (m : ConcurrentSwissMap ℕ ℕ) (j n : ℕ)
      → KnownFrom m j n
      → KnownFrom (merged e m) j n
  merged-keeps e m j n (k, known, le) =
      elim (Bool-cases (is_higher e.seq_no (load m e.vb_id) && e.vb_id == j)) [
        | inl up ↦ (e.seq_no, rw (merged-load e m j, up), ground (arith, known))
        | inr kept ↦ (k, rw (merged-load e m j, kept) known, le)
      ]

  merged-takes :
      (e : VbSeqNoEntry) (m : ConcurrentSwissMap ℕ ℕ) → KnownFrom (merged e m) e.vb_id e.seq_no
  merged-takes e m = elim (Option-cases (load m e.vb_id)) [
    | inl absent ↦ (
      e.seq_no,
      ground (arith, merged-load e m e.vb_id, absent, (==_iff e.vb_id e.vb_id).1 refl),
      omega arith,
    )
    | inr (k, known) ↦ elim (Bool-cases (ltb k e.seq_no)) [
      | inl up ↦ (
        e.seq_no,
        ground (arith, merged-load e m e.vb_id, known, (==_iff e.vb_id e.vb_id).1 refl),
        omega arith,
      )
      | inr kept ↦ (k, ground (arith, merged-load e m e.vb_id, known), ground arith)
    ]
  ]

  pub merge_seq_nos_parts :
      (es : List VbSeqNoEntry) (m : ConcurrentSwissMap ℕ ℕ) (j : ℕ)
      → ((n : ℕ) → KnownFrom m j n → KnownFrom (merge_seq_nos es m) j n)
        × ((n : ℕ) → Reported j n es → KnownFrom (merge_seq_nos es m) j n)
        × ((n : ℕ) → load (merge_seq_nos es m) j ≡ some n → (load m j ≡ some n) ⊎ Reported j n es)
  unfolding merge_seq_nos
  merge_seq_nos_parts [] m j = (λ n h. h, λ n h. absurd h, λ n h. inl h)
  merge_seq_nos_parts (e ∷ es) m j =
      let (keeps, takes, from) = merge_seq_nos_parts es (merged e m) j in
      (λ n h. keeps n (merged-keeps e m j n h), reported keeps takes, λ n h. traced n (from n h))
    where
      reported :
          ((n : ℕ) → KnownFrom (merged e m) j n → KnownFrom (merge_seq_nos es (merged e m)) j n)
          → ((n : ℕ) → Reported j n es → KnownFrom (merge_seq_nos es (merged e m)) j n)
          → (n : ℕ) → Reported j n (e ∷ es)
          → KnownFrom (merge_seq_nos es (merged e m)) j n
      reported keeps takes n (inl (here, this)) = keeps n (
          subst (λ i. KnownFrom (merged e m) i n) here
            (subst (λ q. KnownFrom (merged e m) e.vb_id q) this (merged-takes e m)))
      reported keeps takes n (inr later) = takes n later

      traced :
          (n : ℕ)
          → (load (merged e m) j ≡ some n) ⊎ Reported j n es
          → (load m j ≡ some n) ⊎ Reported j n (e ∷ es)
      traced n (inr later) = inr (inr later)
      traced n (inl now) = ground (arith, merged-load e m j, ==_iff e.vb_id j)

  -- Whatever the order in which the entries arrive, the number kept for a vBucket is the highest of
  -- those reported for it and of the one that was known: when a number n is one of these, the
  -- kept number is at least n, and it is itself one of them.
  pub merge_seq_nos_lem :
      (es : List VbSeqNoEntry) (m : ConcurrentSwissMap ℕ ℕ) (j n : ℕ)
      → (load m j ≡ some n) ⊎ Reported j n es
      → (k : ℕ) × (load (merge_seq_nos es m) j ≡ some k)
        × (n ≤ k)
        × ((load m j ≡ some k) ⊎ Reported j k es)
  merge_seq_nos_lem es m j n h =
      let (keeps, takes, from) = merge_seq_nos_parts es m j in
      let (k, kept, le) = reached keeps takes h in (k, kept, le, from k kept)
    where
      reached :
          ((q : ℕ) → KnownFrom m j q → KnownFrom (merge_seq_nos es m) j q)
          → ((q : ℕ) → Reported j q es → KnownFrom (merge_seq_nos es m) j q)
          → (load m j ≡ some n) ⊎ Reported j n es
          → KnownFrom (merge_seq_nos es m) j n
      reached keeps takes (inl known) = keeps n (n, known, omega arith)
      reached keeps takes (inr told) = takes n told
