-- ===== src/Examples/Members.antt =====
-- Members of a group, and the helpers that share out work.
use go_dcp.Prelude.{ℕ, zero, suc, ◌<◌, ◌≤◌, ◌≡◌, ◌≢◌, Option, none, some, List, [], ◌∷◌, arith}
use go_dcp.Membership.{Model}
use go_dcp.Discovery.{VBucketDiscovery, get}
use go_dcp.Discovery.Ranges.{Streams, assigned_once}

abbrev pub ten_buckets : VBucketDiscovery
ten_buckets = record {
  v_bucket_number = 10;
  metric = record {
    total_members = 0;
    member_number = 0;
    v_bucket_count = 10;
    v_bucket_range_start = 0;
    v_bucket_range_end = 0;
  };
}

abbrev of_three : ℕ → Model
of_three n = record { member_number = n; total_members = 3 }

assigned_once_example :
    (m : ℕ) × (0 < m)
    × (m ≤ 3)
    × Streams (get ten_buckets (of_three m)) 7
    × ((k : ℕ) → Streams (get ten_buckets (of_three k)) 7 → k ≡ m)
assigned_once_example =
    assigned_once ten_buckets 3 7 (omega arith) (omega arith) (omega arith) (omega arith)

abbrev five : List ℕ
five = 1 ∷ 2 ∷ 3 ∷ 4 ∷ 5 ∷ []

abbrev third_works : ℕ → Option ℕ
third_works zero = some 40
third_works (suc zero) = some 41
third_works (suc (suc n)) = none

third_fails : (n : ℕ) → 0 ≤ n → n < 2 → third_works n ≢ none
third_fails zero lo hi e = ground arith
third_fails (suc zero) lo hi e = ground arith
third_fails (suc (suc n)) lo hi e = absurd (omega arith)
