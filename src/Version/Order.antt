-- ===== src/Version/Order.antt =====
-- The order of couchbase/version.go.
use go_dcp.Prelude.{◌≡◌, ◌⊎◌, ◌↔◌, ◌<ℤ◌, ltb_ℤ_iff, ltb_ℤ-order, true, arith}
use go_dcp.Version.{Version, equal, higher, lower}

-- The order of the parts from the first to the last.
abbrev pub IsAfter : Version → Version → Type 0
IsAfter a b =
    (b.major <ℤ a.major)
    ⊎ ((a.major ≡ b.major)
        × ((b.minor <ℤ a.minor)
            ⊎ ((a.minor ≡ b.minor)
                × ((b.patch <ℤ a.patch) ⊎ ((a.patch ≡ b.patch) × (b.build <ℤ a.build))))))

-- Equal, Higher and Lower are a total order of versions: Equal is equality, Higher holds exactly
-- when the first part that differs is higher, Lower exactly when it is lower, and one of the
-- three holds.
pub versions_are_ordered :
    (a b : Version)
    → (equal a b ≡ true ↔ a ≡ b)
      × (higher a b ≡ true ↔ IsAfter a b)
      × (lower a b ≡ true ↔ IsAfter b a)
      × ((equal a b ≡ true) ⊎ (higher a b ≡ true) ⊎ (lower a b ≡ true))
unfolding lower
versions_are_ordered a b =
    let M = ltb_ℤ-order a.major b.major in
    let N = ltb_ℤ-order a.minor b.minor in
    let P = ltb_ℤ-order a.patch b.patch in
    let B = ltb_ℤ-order a.build b.build in
    (
      ground (arith, M, N, P, B),
      ground (
        arith,
        M,
        N,
        P,
        B,
        ltb_ℤ_iff b.major a.major,
        ltb_ℤ_iff b.minor a.minor,
        ltb_ℤ_iff b.patch a.patch,
        ltb_ℤ_iff b.build a.build,
      ),
      ground (
        arith,
        M,
        N,
        P,
        B,
        ltb_ℤ_iff a.major b.major,
        ltb_ℤ_iff a.minor b.minor,
        ltb_ℤ_iff a.patch b.patch,
        ltb_ℤ_iff a.build b.build,
      ),
      ground (arith, M, N, P, B),
    )
