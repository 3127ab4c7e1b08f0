-- ===== src/Mitigation/Least.antt =====
-- getMinSeqNo of couchbase/rollback_mitigation.go is the least number of the replicas that count.
use go_dcp.Prelude.{
  ℕ, ◌≤◌, ◌<◌, ◌≡◌, refl, ◌⊎◌, inl, inr, false, List, [], ◌∷◌, arith, All, Bool-cases,
}
use go_dcp.Mitigation.Defs.{Replica, min_loop, min_of}

-- Every replica that is not absent has this UUID.
abbrev pub Agree : ℕ → List Replica → Type 0
Agree u rs = All (λ r. r.absent ≡ false → r.vb_uuid ≡ u) rs

-- No replica that is not absent has persisted less.
abbrev pub IsBelow : ℕ → List Replica → Type 0
IsBelow n rs = All (λ r. r.absent ≡ false → n ≤ r.seq_no) rs

-- Some replica that is not absent has persisted exactly this.
abbrev pub IsReached : ℕ → List Replica → Type 0
IsReached n [] = ⊥
IsReached n (r ∷ rs) = ((r.absent ≡ false) × (r.seq_no ≡ n)) ⊎ IsReached n rs

abbrev pub IsPresent : List Replica → Type 0
IsPresent [] = ⊥
IsPresent (r ∷ rs) = (r.absent ≡ false) ⊎ IsPresent rs

min_loop-safe :
    (u m : ℕ) (rs : List Replica)
    → 0 < min_loop u m rs
    → Agree u rs × IsBelow (min_loop u m rs) rs × (min_loop u m rs ≤ m)
unfolding min_loop
min_loop-safe u m [] pos = (tt, tt, omega arith)
min_loop-safe u m (r ∷ rs) pos = ground (arith, min_loop-safe u m rs, min_loop-safe u r.seq_no rs)

min_loop-IsReached :
    (u m : ℕ) (rs : List Replica)
    → Agree u rs
    → ((min_loop u m rs ≡ m) ⊎ IsReached (min_loop u m rs) rs)
      × IsBelow (min_loop u m rs) rs
      × (min_loop u m rs ≤ m)
unfolding min_loop
min_loop-IsReached u m [] agree = (inl refl, tt, omega arith)
min_loop-IsReached u m (r ∷ rs) agree =
    ground (arith, min_loop-IsReached u m rs agree.1, min_loop-IsReached u r.seq_no rs agree.1)

-- When the number that getMinSeqNo finds over the replicas of a vBucket is not zero, there is a
-- replica that is not absent, all such replicas have the same history, and none has persisted
-- less.
pub min_of-safe :
    (rs : List Replica)
    → 0 < min_of rs
    → (u : ℕ) × Agree u rs × IsBelow (min_of rs) rs × IsPresent rs
unfolding min_of
min_of-safe [] pos = absurd (omega arith)
min_of-safe (r ∷ rs) pos = elim (Bool-cases r.absent) [
  | inl gone ↦
      let (u, agree, below, present) = min_of-safe rs (ground arith) in
      (
        u,
        (λ e. absurd (ground arith), agree),
        (λ e. absurd (ground arith), ground arith),
        inr present,
      )
  | inr here ↦
      let (agree, below, le) = min_loop-safe r.vb_uuid r.seq_no rs (ground arith) in
      (r.vb_uuid, (λ e. refl, agree), ground arith, inl here)
]

-- When there is a replica that is not absent and all such replicas have the same history, the number
-- is the least that one of them has persisted.
pub min_of-IsReached :
    (rs : List Replica) (u : ℕ)
    → Agree u rs
    → IsPresent rs
    → IsReached (min_of rs) rs × IsBelow (min_of rs) rs
unfolding min_of
min_of-IsReached [] u agree present = absurd present
min_of-IsReached (r ∷ rs) u agree present = elim (Bool-cases r.absent) [
  | inl gone ↦
      let later : IsPresent rs = ground arith in ground (arith, min_of-IsReached rs u agree.1 later)
  | inr here ↦
      let same : r.vb_uuid ≡ u = agree.0 here in
      ground (arith, min_loop-IsReached u r.seq_no rs agree.1)
]
