-- ===== src/Discovery.antt =====
-- stream/vbucket_discovery.go: which vBuckets a member streams.
pub mod Choice
pub mod Contiguous
pub mod Ranges
use go_dcp.Prelude.{
  ℕ, zero, suc, ◌+◌, ◌-◌, ◌%◌, Option, none, some, List, [], ◌∷◌, get_elem?, ◌>>=◌,
}
use go_dcp.Models.{VbIdRange}
use go_dcp.Membership.{Model}
use go_dcp.Helpers.{chunk_slice}

pub record VBucketDiscoveryMetric : Type 0 where
  pub total_members : ℕ
  pub member_number : ℕ
  pub v_bucket_count : ℕ
  pub v_bucket_range_start : ℕ
  pub v_bucket_range_end : ℕ

pub record VBucketDiscovery : Type 0 where
  pub v_bucket_number : ℕ
  pub metric : VBucketDiscoveryMetric

abbrev pub uint16 : ℕ → ℕ
uint16 n = n % 65536

-- The loop that fills `vBuckets`, with the rounds that are left and `i`.
unfoldable pub v_buckets : ℕ → ℕ → List ℕ
v_buckets zero i = []
v_buckets (suc rounds) i = uint16 i ∷ v_buckets rounds (i + 1)

-- xs[0] and xs[len(xs)-1], which panic on an empty slice
unfoldable pub first : List ℕ → Option ℕ
first [] = none
first (x ∷ xs) = some x

unfoldable pub last : List ℕ → Option ℕ
last [] = none
last (x ∷ []) = some x
last (x ∷ y ∷ xs) = last (y ∷ xs)

-- chunks[memberNumber-1], which panics at -1
unfoldable pub chunk_of : List (List ℕ) → ℕ → Option (List ℕ)
chunk_of chunks zero = none
chunk_of chunks (suc n) = get_elem? chunks n

-- The two ends of a list of vBuckets; Stream.Open takes its range from them too (stream/stream.go).
unfoldable pub range_of : List ℕ → Option VbIdRange
unfolding first last
range_of vb_ids = do
  start ← first vb_ids
  end ← last vb_ids
  some (record { start = start; end = end })

-- Get once the chunk is known: the ends of its range go to the metric.
unfoldable pub announce : VBucketDiscovery → Model → List ℕ → Option (List ℕ × VBucketDiscovery)
unfolding range_of
announce s received_info ready_to_stream = do
  range ← range_of ready_to_stream
  some (
    ready_to_stream,
    record s {
      metric = record (s.metric) {
        total_members = received_info.total_members;
        member_number = received_info.member_number;
        v_bucket_range_start = range.start;
        v_bucket_range_end = range.end;
      };
    },
  )

-- `received_info` is what the membership's GetInfo answers.
unfoldable pub get : VBucketDiscovery → Model → Option (List ℕ × VBucketDiscovery)
unfolding v_buckets chunk_of announce
get s received_info = do
  chunks ← chunk_slice (v_buckets s.v_bucket_number 0) received_info.total_members
  ready_to_stream ← chunk_of chunks received_info.member_number
  announce s received_info ready_to_stream
