-- ===== src/Discovery/Contiguous.antt =====
-- Runs of consecutive vBuckets, and how pieces of such a run cover it.
use mathlib.Core.List.{flatten, Memᴰ}
use go_dcp.Prelude.{
  ℕ, zero, suc, ◌+◌, ◌-◌, ◌≤◌, ◌<◌, ◌≡◌, refl, ap, ap₂, subst, sym, ◌∙◌, ◌↔◌, inl, inr, true,
  Option, none, some, List, [], ◌∷◌, ◌++◌, arith, All, length, get_elem?, ltb, ltb→lt, ltb→lt_false,
  Bool-cases, ◌==◌, ==_iff,
}
use go_dcp.Models.{VbIdRange, in_range}
use go_dcp.Discovery.{uint16, v_buckets, first, last, range_of}

abbrev pub count_from : ℕ → ℕ → List ℕ
count_from a zero = []
count_from a (suc n) = a ∷ count_from (a + 1) n

pub v_buckets-count_from : (n a : ℕ) → a + n ≤ 65536 → v_buckets n a ≡ count_from a n
unfolding v_buckets
v_buckets-count_from zero a h = refl
v_buckets-count_from (suc n) a h =
    let e : uint16 a ≡ a = omega arith in rw (e, v_buckets-count_from n (a + 1) (omega arith))

pub length-count_from : (a n : ℕ) → length (count_from a n) ≡ n
length-count_from a zero = refl
length-count_from a (suc n) = ap suc (length-count_from (a + 1) n)

count_from-eq :
    {rest : List ℕ} {a b n m : ℕ} → rest ≡ count_from a n → a ≡ b → n ≡ m → rest ≡ count_from b m
count_from-eq h p q = h ∙ ap₂ count_from p q

-- A prefix of a run is a run, and so is what follows it.
split_count :
    (c rest : List ℕ) (a n : ℕ)
    → c ++ rest ≡ count_from a n
    → (c ≡ count_from a (length c))
      × (rest ≡ count_from (a + length c) (n - length c))
      × (length c ≤ n)
split_count [] rest a n h = (refl, count_from-eq h (omega arith) (omega arith), omega arith)
split_count (x ∷ c) rest a zero h = absurd (ground arith)
split_count (x ∷ c) rest a (suc n) h =
    let head : x ≡ a = ground arith in
    let tail : c ++ rest ≡ count_from (a + 1) n = ground arith in
    let (p, q, r) = split_count c rest (a + 1) n tail in
    (ap₂ ◌∷◌ head p, count_from-eq q (omega arith) (omega arith), omega arith)

first-count_from : (a k : ℕ) → first (count_from a (suc k)) ≡ some a
unfolding first
first-count_from a k = refl

last-count_from : (a k : ℕ) → last (count_from a (suc k)) ≡ some (a + k)
unfolding last
last-count_from a zero = ap some (omega arith)
last-count_from a (suc k) = last-count_from (a + 1) k ∙ ap some (omega arith)

pub range_of-count_from :
    (a k : ℕ) → range_of (count_from a (suc k)) ≡ some (record { start = a; end = a + k })
unfolding range_of first
range_of-count_from a k = rw (last-count_from a k)

abbrev pub Inside : Option VbIdRange → ℕ → Type 0
Inside none vb = ⊥
Inside (some r) vb = in_range r vb ≡ true

abbrev pub Covers : Option (List ℕ) → ℕ → Type 0
Covers none vb = ⊥
Covers (some c) vb = Inside (range_of c) vb

Covers-count_from :
    (c : List ℕ) (a vb : ℕ)
    → c ≡ count_from a (length c)
    → 0 < length c
    → Covers (some c) vb ↔ ((a ≤ vb) × (vb < a + length c))
unfolding in_range
Covers-count_from [] a vb e pos = elim pos [ ]
Covers-count_from (x ∷ c) a vb e pos =
    let r = ap range_of e ∙ range_of-count_from a (length c) in
    subst (λ o. Inside o vb ↔ ((a ≤ vb) × (vb < a + length (x ∷ c)))) (sym r) (ground arith)

-- The position of a piece that covers `vb`, and that no other does.
abbrev pub OnlyAt : List (List ℕ) → ℕ → ℕ → Type 0
OnlyAt cs vb j = Covers (get_elem? cs j) vb × ((k : ℕ) → Covers (get_elem? cs k) vb → k ≡ j)

not-covered :
    (cs : List (List ℕ)) (a n vb j : ℕ)
    → flatten cs ≡ count_from a n
    → All (λ c. 0 < length c) cs
    → vb < a
    → ¬ Covers (get_elem? cs j) vb
unfolding flatten
not-covered [] a n vb j e pos h covered = covered
not-covered (c ∷ cs) a n vb zero e pos h covered =
    let (p, q, r) = split_count c (flatten cs) a n e in
    omega (arith, (Covers-count_from c a vb p pos.0).0 covered)
not-covered (c ∷ cs) a n vb (suc j) e pos h covered =
    let (p, q, r) = split_count c (flatten cs) a n e in
    not-covered cs (a + length c) (n - length c) vb j q pos.1 (omega arith) covered

shift_once :
    (c : List ℕ) (cs : List (List ℕ)) (vb : ℕ)
    → ¬ Covers (some c) vb
    → (j : ℕ) × (j < length cs) × OnlyAt cs vb j
    → (j : ℕ) × (j < length (c ∷ cs)) × OnlyAt (c ∷ cs) vb j
shift_once c cs vb away (j, inside, once) = (suc j, omega arith, (once.0, others))
  where
    others : (k : ℕ) → Covers (get_elem? (c ∷ cs) k) vb → k ≡ suc j
    others zero h = absurd (away h)
    others (suc k) h = ap suc (once.1 k h)

-- Non-empty pieces of a run cover each of its numbers exactly once.
pub covered_once :
    (cs : List (List ℕ)) (a n vb : ℕ)
    → flatten cs ≡ count_from a n
    → All (λ c. 0 < length c) cs
    → a ≤ vb
    → vb < a + n
    → (j : ℕ) × (j < length cs) × OnlyAt cs vb j
unfolding flatten
covered_once [] a zero vb e pos lo hi = absurd (omega arith)
covered_once [] a (suc n) vb e pos lo hi = absurd (cc e)
covered_once (c ∷ cs) a n vb e pos lo hi = elim (Bool-cases (ltb vb (a + length c))) [
  | inl here ↦ (0, omega arith, (cover.1 (lo, ltb→lt vb (a + length c) here), only_here here))
  | inr later ↦
      let past : a + length c ≤ vb = ltb→lt_false vb (a + length c) later in
      shift_once c cs vb (λ h. omega (arith, cover.0 h))
        (covered_once cs (a + length c) (n - length c) vb run.1 pos.1 past (omega (arith, run.2)))
]
  where
    run :
        (c ≡ count_from a (length c))
        × (flatten cs ≡ count_from (a + length c) (n - length c))
        × (length c ≤ n)
    run = split_count c (flatten cs) a n e

    cover : Covers (some c) vb ↔ ((a ≤ vb) × (vb < a + length c))
    cover = Covers-count_from c a vb run.0 pos.0

    only_here : ltb vb (a + length c) ≡ true → (k : ℕ) → Covers (get_elem? (c ∷ cs) k) vb → k ≡ 0
    only_here here zero covered = refl
    only_here here (suc k) covered = absurd (
        not-covered cs (a + length c) (n - length c) vb k run.1 pos.1
          (ltb→lt vb (a + length c) here) covered)

-- Each piece is itself a run, inside the whole.
pub piece_at :
    (cs : List (List ℕ)) (a n j : ℕ)
    → flatten cs ≡ count_from a n
    → All (λ c. 0 < length c) cs
    → j < length cs
    → (b : ℕ) × (k : ℕ) × (get_elem? cs j ≡ some (count_from b (suc k))) × (a ≤ b) × (b + k < a + n)
unfolding flatten
piece_at [] a n j e pos h = elim h [ ]
piece_at ([] ∷ cs) a n j e pos h = absurd (omega (arith, pos.0))
piece_at ((x ∷ c) ∷ cs) a n zero e pos h =
    let (p, q, r) = split_count (x ∷ c) (flatten cs) a n e in
    (a, length c, ap some p, omega arith, omega arith)
piece_at ((x ∷ c) ∷ cs) a n (suc j) e pos h =
    let (p, q, r) = split_count (x ∷ c) (flatten cs) a n e in
    let (b, k, at, lo, hi) =
      piece_at cs (a + length (x ∷ c)) (n - length (x ∷ c)) j q pos.1 (omega arith) in
    (b, k, at, omega arith, omega arith)

-- The numbers of a run are those between its ends.
pub mem-count_from : (vb a n : ℕ) → Memᴰ vb (count_from a n) ↔ ((a ≤ vb) × (vb < a + n))
mem-count_from vb a n = (bounds a n, member a n)
  where
    bounds : (a n : ℕ) → Memᴰ vb (count_from a n) → (a ≤ vb) × (vb < a + n)
    bounds a zero h = elim h [ ]
    bounds a (suc n) (Memᴰ.head e) = (omega arith, omega arith)
    bounds a (suc n) (Memᴰ.tail h) = let b = bounds (a + 1) n h in (omega arith, omega arith)

    member : (a n : ℕ) → (a ≤ vb) × (vb < a + n) → Memᴰ vb (count_from a n)
    member a zero h = absurd (omega arith)
    member a (suc n) h = elim (Bool-cases (vb == a)) [
      | inl e ↦ Memᴰ.head ((==_iff vb a).0 e)
      | inr e ↦ Memᴰ.tail (member (a + 1) n (ground arith))
    ]
