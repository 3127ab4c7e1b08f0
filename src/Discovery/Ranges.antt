-- ===== src/Discovery/Ranges.antt =====
-- The members of a group share the vBuckets: each is streamed by exactly one of them.
use mathlib.Core.List.{flatten, Memᴰ}
use go_dcp.Prelude.{
  ℕ, zero, suc, ◌+◌, ◌≤◌, ◌<◌, ◌≡◌, refl, ap, subst, sym, ◌∙◌, ◌↔◌, inl, inr, true, Option, none,
  some, List, arith, All, length, ◌>>=◌, Option-cases,
}
use go_dcp.Models.{VbIdRange, in_range}
use go_dcp.Membership.{Model}
use go_dcp.Helpers.{chunk_slice, max_chunk_size}
use go_dcp.Helpers.Chunks.{IsEven, chunk_slice_partitions, chunks_nonempty}
use go_dcp.Discovery.{VBucketDiscovery, v_buckets, chunk_of, announce, get, range_of}
use go_dcp.Discovery.Contiguous.{
  count_from, v_buckets-count_from, length-count_from, Inside, Covers, OnlyAt, covered_once,
  range_of-count_from, piece_at, mem-count_from,
}

-- A member that gets this answer from Get streams `vb`.
abbrev pub Streams : Option (List ℕ × VBucketDiscovery) → ℕ → Type 0
Streams none vb = ⊥
Streams (some (vb_ids, s)) vb = Inside (range_of vb_ids) vb

abbrev tail_of : VBucketDiscovery → Model → Option (List ℕ) → Option (List ℕ × VBucketDiscovery)
tail_of s info o = do ready ← o; announce s info ready

announce-none :
    (s : VBucketDiscovery) (info : Model) (c : List ℕ)
    → range_of c ≡ none
    → announce s info c ≡ none
unfolding announce
announce-none s info c e = rw e

announce-some :
    (s : VBucketDiscovery) (info : Model) (c : List ℕ) (r : VbIdRange)
    → range_of c ≡ some r
    → announce s info c
      ≡ some (
        c,
        record s {
          metric = record (s.metric) {
            total_members = info.total_members;
            member_number = info.member_number;
            v_bucket_range_start = r.start;
            v_bucket_range_end = r.end;
          };
        },
      )
unfolding announce
announce-some s info c r e = rw e

Streams-Covers :
    (s : VBucketDiscovery) (info : Model) (o : Option (List ℕ)) (vb : ℕ)
    → Streams (tail_of s info o) vb ↔ Covers o vb
Streams-Covers s info none vb = (λ h. h, λ h. h)
Streams-Covers s info (some c) vb = elim (Option-cases (range_of c)) [
  | inl e ↦ rw (announce-none s info c e, e) (λ h. h, λ h. h)
  | inr (r, e) ↦ rw (announce-some s info c r e) (λ h. h, λ h. h)
]

get-chunks :
    (s : VBucketDiscovery) (info : Model) (cs : List (List ℕ))
    → chunk_slice (v_buckets s.v_bucket_number 0) info.total_members ≡ some cs
    → get s info ≡ tail_of s info (chunk_of cs info.member_number)
unfolding get
get-chunks s info cs e = rw e

-- The chunks of a group: consecutive, and none of them empty.
chunks_of_group :
    (n t : ℕ)
    → 0 < t
    → t ≤ n
    → n ≤ 65536
    → (cs : List (List ℕ)) × (chunk_slice (v_buckets n 0) t ≡ some cs)
      × (flatten cs ≡ count_from 0 n)
      × (length cs ≡ t)
      × All (λ c. 0 < length c) cs
chunks_of_group n t pos few small =
    let (cs, e, joined, len, even) = chunk_slice_partitions (v_buckets n 0) t pos in
    let whole = joined ∙ v_buckets-count_from n 0 (omega arith) in
    let size : length (flatten cs) ≡ n = ap length whole ∙ length-count_from 0 n in
    (
      cs,
      e,
      whole,
      len,
      chunks_nonempty cs t pos (omega arith) len
          (subst (λ l. All (IsEven (max_chunk_size (length l) t)) cs) (sym joined) even),
    )

chunk_number :
    (cs : List (List ℕ)) (vb k j : ℕ) → OnlyAt cs vb j → Covers (chunk_of cs k) vb → k ≡ suc j
unfolding chunk_of
chunk_number cs vb zero j once h = absurd h
chunk_number cs vb (suc k) j once h = ap suc (once.1 k h)

-- With at least one member and no more members than vBuckets, every vBucket is in the range of
-- exactly one member: there is a member number between 1 and the total whose Get answers with a
-- range that holds it, and any member number with such an answer is that one.
pub assigned_once :
    (s : VBucketDiscovery) (total vb : ℕ)
    → 0 < total
    → total ≤ s.v_bucket_number
    → s.v_bucket_number ≤ 65536
    → vb < s.v_bucket_number
    → (m : ℕ) × (0 < m)
      × (m ≤ total)
      × Streams (get s (record { member_number = m; total_members = total })) vb
      × ((k : ℕ) → Streams (get s (record { member_number = k; total_members = total })) vb → k ≡ m)
unfolding chunk_of
assigned_once s total vb pos few small inside =
    let (cs, e, whole, len, full) = chunks_of_group s.v_bucket_number total pos few small in
    let (j, at, once) =
      covered_once cs 0 s.v_bucket_number vb whole full (omega arith) (omega arith) in
    (
      suc j,
      omega arith,
      omega arith,
      (bridge cs e (suc j)).1 once.0,
      λ k h. chunk_number cs vb k j once ((bridge cs e k).0 h),
    )
  where
    bridge :
        (cs : List (List ℕ))
        → chunk_slice (v_buckets s.v_bucket_number 0) total ≡ some cs
        → (k : ℕ)
        → Streams (get s (record { member_number = k; total_members = total })) vb
          ↔ Covers (chunk_of cs k) vb
    bridge cs e k =
        let info : Model = record { member_number = k; total_members = total } in
        rw (get-chunks s info cs e) (Streams-Covers s info (chunk_of cs k) vb)

-- The members of a group are told apart by their numbers alone: each gets an answer, without a
-- panic, and its list is a non-empty run of consecutive vBuckets. The range that the stream takes
-- from the list holds exactly the listed vBuckets, and the metric shows its ends.
pub answers_in_range :
    (s : VBucketDiscovery) (total m : ℕ)
    → 0 < m
    → m ≤ total
    → total ≤ s.v_bucket_number
    → s.v_bucket_number ≤ 65536
    → (vb_ids : List ℕ) × (t : VBucketDiscovery) × (r : VbIdRange) × (get s
          (record { member_number = m; total_members = total })
        ≡ some (vb_ids, t))
      × (range_of vb_ids ≡ some r)
      × ((vb : ℕ) → (in_range r vb ≡ true) ↔ Memᴰ vb vb_ids)
      × (r.end < s.v_bucket_number)
      × (t.metric.v_bucket_range_start ≡ r.start)
      × (t.metric.v_bucket_range_end ≡ r.end)
unfolding chunk_of in_range
answers_in_range s total zero pos le few small = elim pos [ ]
answers_in_range s total (suc j) pos le few small =
    let (cs, e, whole, len, full) =
      chunks_of_group s.v_bucket_number total (omega arith) few small in
    let (b, k, at, lo, hi) = piece_at cs 0 s.v_bucket_number j whole full (omega arith) in
    let info : Model = record { member_number = suc j; total_members = total } in
    let r : VbIdRange = record { start = b; end = b + k } in
    let range = range_of-count_from b k in
    (
      count_from b (suc k),
      _,
      r,
      get-chunks s info cs e
          ∙ ap (tail_of s info) at
          ∙ announce-some s info (count_from b (suc k)) r range,
      range,
      λ vb. (
        λ h. (mem-count_from vb b (suc k)).1 (ground arith),
        λ h. let inside = (mem-count_from vb b (suc k)).0 h in ground arith,
      ),
      omega arith,
      refl,
      refl,
    )
