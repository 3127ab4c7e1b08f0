-- ===== src/Helpers/Chunks.antt =====
-- ChunkSlice of helpers/utils.go cuts a slice into even, contiguous pieces, and never panics.
use mathlib.Core.List.{flatten}
use go_dcp.Prelude.{
  ℕ, zero, suc, ◌+◌, ◌-◌, ◌*◌, ◌≤◌, ◌<◌, min, ◌≡◌, refl, ap, sym, ◌∙◌, ◌⊎◌, inl, inr, Option, some,
  List, [], ◌∷◌, ◌++◌, arith, All, length, take, drop, leb, le→leb, leb→le, leb→le_false,
  drop-eq_nil, take-append-drop_at, length-slice, Bool-cases, length-append, ◌>>=◌,
}
use go_dcp.Helpers.{slice_range, chunk_loop, max_chunk_size, chunk_slice}

-- Every piece has `max` items or one fewer.
abbrev pub IsEven {ℓ} : {A : Type ℓ} → ℕ → List A → Type 0
IsEven max c = (length c ≤ max) × (max ≤ length c + 1)

slice_range-some {ℓ} :
    {A : Type ℓ} (xs : List A) (start end : ℕ)
    → start ≤ end
    → end ≤ length xs
    → slice_range xs start end ≡ some (take (end - start) (drop start xs))
unfolding slice_range
slice_range-some xs start end h k = rw (le→leb start end h, le→leb end (length xs) k)

-- What a run of the loop gives from `start` on, in `r` rounds.
abbrev Cut {ℓ} : {A : Type ℓ} → Option (List (List A)) → ℕ → ℕ → List A → Type ℓ
Cut {A = A} result max r rest =
    (cs : List (List A)) × (result ≡ some cs)
    × (flatten cs ≡ rest)
    × (length cs ≡ r)
    × All (IsEven max) cs

Cut-step {ℓ} :
    {A : Type ℓ} (xs : List A) (max start end r : ℕ) (tail : Option (List (List A)))
    → start ≤ end
    → end ≤ length xs
    → end ≤ start + max
    → start + max ≤ end + 1
    → Cut tail max r (drop end xs)
    → Cut
        (do chunk ← slice_range xs start end; rest ← tail; some (chunk ∷ rest))
        max
        (suc r)
        (drop start xs)
unfolding flatten
Cut-step xs max start end r tail lo hi fits full (cs, e, joined, len, even) = (
  take (end - start) (drop start xs) ∷ cs,
  rw (slice_range-some xs start end lo hi, e),
  ap (λ l. take (end - start) (drop start xs) ++ l) joined ∙ take-append-drop_at start end xs lo,
  omega (arith, len),
  (
    (
      omega (arith, length-slice start end xs lo hi),
      omega (arith, length-slice start end xs lo hi),
    ),
    even,
  ),
)

le-mul_pos : (r m : ℕ) → 0 < m → r ≤ r * m
le-mul_pos r m h = grind arith

-- `S` counts the short pieces at the end; `i` says how many rounds are left by the other count.
chunk_loop_lem {ℓ} :
    {A : Type ℓ} (xs : List A) (max full r i start S : ℕ)
    → i + r ≡ full + S
    → start + r * max ≡ length xs + min r S
    → start ≤ length xs
    → (S ≡ 0) ⊎ (0 < max)
    → Cut (chunk_loop xs max full r i start) max r (drop start xs)
unfolding chunk_loop flatten
chunk_loop_lem xs max full zero i start S rounds room inside pos =
    ([], refl, sym (drop-eq_nil start xs (omega arith)), refl, tt)
chunk_loop_lem xs max full (suc r) i start S rounds room inside pos =
    elim (Bool-cases (leb full i)) [
      | inl short ↦
          let m : (0 < max) × (r < S) = omega (arith, leb→le full i short) in
          let fits : start + max - 1 ≤ length xs = omega (arith, le-mul_pos r max m.0) in
          rw short (
            Cut-step xs max start (start + max - 1) r
              (chunk_loop xs max full r (i + 1) (start + max - 1)) (omega arith) fits (omega arith)
              (omega arith)
              (chunk_loop_lem xs max full r (i + 1) (start + max - 1) S (omega arith) (omega arith)
                fits pos))
      | inr long ↦
          let m : S ≤ r = omega (arith, leb→le_false full i long) in
          let fits : start + max ≤ length xs = long_fits m in
          rw long (
            Cut-step xs max start (start + max) r (chunk_loop xs max full r (i + 1) (start + max))
              (omega arith) fits (omega arith) (omega arith)
              (chunk_loop_lem xs max full r (i + 1) (start + max) S (omega arith) (omega arith) fits
                pos))
    ]
  where
    long_fits : S ≤ r → start + max ≤ length xs
    long_fits m = elim pos [
      | inl none_short ↦ omega arith
      | inr some_room ↦ omega (arith, le-mul_pos r max some_room)
    ]

-- The sizes that the code computes meet the loop's conditions.
chunk_sizes :
    (len n : ℕ)
    → let max = max_chunk_size len (suc n) in
      (len ≤ max * suc n) × (max * suc n - len ≤ suc n) × ((max * suc n - len ≡ 0) ⊎ (0 < max))
unfolding max_chunk_size
chunk_sizes zero zero = (omega arith, omega arith, inl refl)
chunk_sizes zero (suc n) = ground arith
chunk_sizes (suc len) n = (grind arith, grind arith, inr (omega arith))

-- For any slice and any positive number of chunks, ChunkSlice does not panic; it returns that many
-- chunks, in order and without loss (joined they are the slice), and their sizes are even: each
-- has ⌈len / chunks⌉ items or one fewer.
pub chunk_slice_partitions {ℓ} :
    {A : Type ℓ} (xs : List A) (chunks : ℕ)
    → 0 < chunks
    → (cs : List (List A)) × (chunk_slice xs chunks ≡ some cs)
      × (flatten cs ≡ xs)
      × (length cs ≡ chunks)
      × All (IsEven (max_chunk_size (length xs) chunks)) cs
unfolding chunk_slice
chunk_slice_partitions xs zero h = elim h [ ]
chunk_slice_partitions xs (suc n) h =
    let max = max_chunk_size (length xs) (suc n) in
    let (fits, few, pos) = chunk_sizes (length xs) n in
    let short = max * suc n - length xs in
    chunk_loop_lem xs max (suc n - short) (suc n) 0 0 short (omega arith) (omega arith)
      (omega arith) pos

module _ {ℓ} {A : Type ℓ} where
  length-flatten_le :
      (cs : List (List A)) (m : ℕ) → All (IsEven m) cs → length (flatten cs) ≤ m * length cs
  unfolding flatten
  length-flatten_le [] m h = omega arith
  length-flatten_le (c ∷ cs) m h =
      grind (arith, length-append c (flatten cs), length-flatten_le cs m h.1)

  full_singles :
      (cs : List (List A))
      → All (IsEven 1) cs
      → length (flatten cs) ≡ length cs
      → All (λ c. 0 < length c) cs
  unfolding flatten
  full_singles [] h e = tt
  full_singles (c ∷ cs) h e =
      let split = length-append c (flatten cs) in
      let rest = length-flatten_le cs 1 h.1 in (omega arith, full_singles cs h.1 (omega arith))

  large_nonempty :
      (cs : List (List A)) (m : ℕ) → All (IsEven (suc (suc m))) cs → All (λ c. 0 < length c) cs
  large_nonempty [] m h = tt
  large_nonempty (c ∷ cs) m h = (omega arith, large_nonempty cs m h.1)

max_of_one : (len n : ℕ) → suc n ≤ len → max_chunk_size len (suc n) ≡ 1 → len ≡ suc n
unfolding max_chunk_size
max_of_one zero n h e = absurd (omega arith)
max_of_one (suc len) n h e = grind arith

max_pos : (len n : ℕ) → suc n ≤ len → 0 < max_chunk_size len (suc n)
unfolding max_chunk_size
max_pos zero n h = absurd (omega arith)
max_pos (suc len) n h = omega arith

chunks_nonempty_at {ℓ} :
    {A : Type ℓ} (cs : List (List A)) (n m : ℕ)
    → m ≡ max_chunk_size (length (flatten cs)) (suc n)
    → suc n ≤ length (flatten cs)
    → length cs ≡ suc n
    → All (IsEven m) cs
    → All (λ c. 0 < length c) cs
chunks_nonempty_at cs n zero e h l even = absurd (omega (arith, max_pos (length (flatten cs)) n h))
chunks_nonempty_at cs n (suc zero) e h l even =
    full_singles cs even (max_of_one _ n h (sym e) ∙ sym l)
chunks_nonempty_at cs n (suc (suc m)) e h l even = large_nonempty cs m even

-- With no more chunks than items, no chunk is empty.
pub chunks_nonempty {ℓ} :
    {A : Type ℓ} (cs : List (List A)) (chunks : ℕ)
    → 0 < chunks
    → chunks ≤ length (flatten cs)
    → length cs ≡ chunks
    → All (IsEven (max_chunk_size (length (flatten cs)) chunks)) cs
    → All (λ c. 0 < length c) cs
chunks_nonempty cs zero pos h l even = elim pos [ ]
chunks_nonempty cs (suc n) pos h l even = chunks_nonempty_at cs n _ refl h l even
