-- ===== src/Helpers.antt =====
-- helpers/utils.go and helpers/constants.go.
-- A Go panic (a division by zero, a slice bound out of range) is `none`.
pub mod Chunks
pub mod Retries
pub mod DataUnits
pub mod Units
pub mod Sized
use go_dcp.Prelude.{
  ℕ, zero, suc, ◌+◌, ◌-◌, ◌*◌, ◌/◌, ◌^◌, Bool, true, false, ◌&&◌, ◌||◌, Option, none, some, List,
  [], ◌∷◌, String, length, take, drop, ltb, leb, ◌==◌, if◌then◌else◌, ◌>>=◌, codes,
}

abbrev pub prefix : String
prefix = "_connector:cbgo:"

abbrev pub txn_prefix : String
txn_prefix = "_txn:"

abbrev pub max_int_value : ℕ
max_int_value = 0xffffffffffffffff

-- bytes.HasPrefix
unfoldable pub has_prefix : List ℕ → List ℕ → Bool
has_prefix s [] = true
has_prefix [] (p ∷ ps) = false
has_prefix (b ∷ s) (p ∷ ps) = b == p && has_prefix s ps

-- The argument is the field `Key` of the value, and `none` where its type has no such field.
unfoldable pub is_metadata : Option (List ℕ) → Bool
unfolding has_prefix
is_metadata none = false
is_metadata (some key) = has_prefix key (codes prefix) || has_prefix key (codes txn_prefix)

-- slice[start:end], for a slice with no room behind its end
unfoldable pub slice_range {ℓ} : {A : Type ℓ} → List A → ℕ → ℕ → Option (List A)
slice_range xs start end =
    if leb start end && leb end (length xs) then some (take (end - start) (drop start xs)) else none

-- ((len - 1) / chunks) + 1; Go's division rounds towards zero, so -1 / chunks is 0 unless chunks is 1
unfoldable pub max_chunk_size : ℕ → ℕ → ℕ
max_chunk_size zero chunks = if chunks == 1 then 0 else 1
max_chunk_size (suc n) chunks = n / chunks + 1

-- The rounds that are left, and the loop's `i` and `startIndex`.
unfoldable pub chunk_loop {ℓ} : {A : Type ℓ} → List A → ℕ → ℕ → ℕ → ℕ → ℕ → Option (List (List A))
unfolding slice_range
chunk_loop slice max_chunk_size num_full_chunks zero i start = some []
chunk_loop slice max_chunk_size num_full_chunks (suc rounds) i start =
    let end =
      if leb num_full_chunks i then start + max_chunk_size - 1 else start + max_chunk_size in
    do
      chunk ← slice_range slice start end
      rest ← chunk_loop slice max_chunk_size num_full_chunks rounds (i + 1) end
      some (chunk ∷ rest)

unfoldable pub chunk_slice {ℓ} : {A : Type ℓ} → List A → ℕ → Option (List (List A))
unfolding chunk_loop max_chunk_size
chunk_slice slice zero = none
chunk_slice slice (suc n) =
    let size = max_chunk_size (length slice) (suc n) in
    let num_full_chunks = suc n - (size * suc n - length slice) in
    chunk_loop slice size num_full_chunks (suc n) 0 0

-- The loop of ChunkSliceWithSize from `i` on, with fuel: `none` means that it did not end.
unfoldable pub sized_loop {ℓ} : {A : Type ℓ} → ℕ → List A → ℕ → ℕ → Option (List (List A))
sized_loop zero slice size i = none
sized_loop (suc fuel) slice size i =
    let end = if ltb (length slice) (i + size) then length slice else i + size in
    let more = do
      rest ← sized_loop fuel slice size (i + size)
      some (take (end - i) (drop i slice) ∷ rest)
    in if ltb i (length slice) then more else some []

-- One more round than there are items: see Helpers/Sized.antt.
unfoldable pub chunk_slice_with_size {ℓ} : {A : Type ℓ} → List A → ℕ → Option (List (List A))
unfolding sized_loop
chunk_slice_with_size slice size = sized_loop (suc (length slice)) slice size 0

-- `f i` is what the i-th call answers, `none` being nil; the result is the error that is returned
-- and the number of calls made.
unfoldable pub retry_loop {ℓ} : {E : Type ℓ} → (ℕ → Option E) → ℕ → ℕ → Option E → Option E × ℕ
retry_loop f zero i err = (err, i)
retry_loop f (suc left) i err =
    let again = retry_loop f left (i + 1) (f i) in
    elim (f i) [ none ↦ (none, i + 1) | some e ↦ again ]

unfoldable pub retry {ℓ} : {E : Type ℓ} → (ℕ → Option E) → ℕ → Option E × ℕ
unfolding retry_loop
retry f attempts = retry_loop f attempts 0 none
