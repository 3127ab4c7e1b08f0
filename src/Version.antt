-- ===== src/Version.antt =====
-- couchbase/version.go: versions of the server, their order, and how they are read.
pub mod Order
pub mod Parsing
use go_dcp.Strconv.{Parsed, valid, no_syntax, out_of_range, atoi, split}
use go_dcp.Prelude.{
  ℕ, ℤ, pos, Option, none, some, List, [], ◌∷◌, Bool, true, false, not, ◌&&◌, ltb_ℤ, eq_ℤ,
  if◌then◌else◌,
}

pub record Version : Type 0 where
  pub major : ℤ
  pub minor : ℤ
  pub patch : ℤ
  pub build : ℤ

abbrev pub srv_ver_550 : Version
srv_ver_550 = record { major = pos 5; minor = pos 5; patch = pos 0; build = pos 0 }

abbrev pub srv_ver_650 : Version
srv_ver_650 = record { major = pos 6; minor = pos 5; patch = pos 0; build = pos 0 }

abbrev pub srv_ver_720 : Version
srv_ver_720 = record { major = pos 7; minor = pos 2; patch = pos 0; build = pos 0 }

unfoldable pub equal : Version → Version → Bool
equal v ov =
    if (eq_ℤ v.major ov.major && eq_ℤ v.minor ov.minor)
      && (eq_ℤ v.patch ov.patch && eq_ℤ v.build ov.build)
    then true
    else false

unfoldable pub higher : Version → Version → Bool
higher v ov =
    if ltb_ℤ ov.major v.major
    then true
    else if ltb_ℤ v.major ov.major
    then false
    else if ltb_ℤ ov.minor v.minor
    then true
    else if ltb_ℤ v.minor ov.minor
    then false
    else if ltb_ℤ ov.patch v.patch
    then true
    else if ltb_ℤ v.patch ov.patch
    then false
    else if ltb_ℤ ov.build v.build
    then true
    else if ltb_ℤ v.build ov.build
    then false
    else false

unfoldable pub lower : Version → Version → Bool
unfolding higher equal
lower v ov = not (higher v ov) && not (equal v ov)

-- The error names the part that is not a number.
pub data Part : Type 0 where
  no_version bad_major bad_minor bad_patch : Part

pub data NodeVersion : Type 0 where
  is_version : Version → NodeVersion
  is_not : Part → NodeVersion

-- What is assigned to the build also where Atoi fails.
abbrev pub number_or_zero : Parsed ℤ → ℤ
number_or_zero (valid n) = n
number_or_zero no_syntax = pos 0
number_or_zero (out_of_range n) = n

abbrev pub or_bad : Part → Parsed ℤ → (ℤ → NodeVersion) → NodeVersion
or_bad part (valid n) f = f n
or_bad part no_syntax f = is_not part
or_bad part (out_of_range n) f = is_not part

abbrev pub version_of : ℤ → ℤ → ℤ → ℤ → NodeVersion
version_of major minor patch build =
    is_version (record { major = major; minor = minor; patch = patch; build = build })

-- The build, which ends at the next dash.
abbrev pub build_of : List (List ℕ) → ℤ
build_of [] = pos 0
build_of (edition ∷ editions) = number_or_zero (atoi edition)

-- From the third part on: the patch and, after a dash, the build.
abbrev pub with_build : ℤ → ℤ → List (List ℕ) → NodeVersion
with_build major minor [] = is_not no_version
with_build major minor (patch ∷ []) =
    or_bad bad_patch (atoi patch) λ p. version_of major minor p (pos 0)
with_build major minor (patch ∷ build ∷ rest) =
    or_bad bad_patch (atoi patch) λ p. version_of major minor p (build_of (split b'-' build))

abbrev pub with_patch : ℤ → ℤ → List (List ℕ) → NodeVersion
with_patch major minor [] = version_of major minor (pos 0) (pos 0)
with_patch major minor (third ∷ rest) = with_build major minor (split b'-' third)

abbrev pub with_minor : ℤ → List (List ℕ) → NodeVersion
with_minor major [] = version_of major (pos 0) (pos 0) (pos 0)
with_minor major (second ∷ rest) =
    or_bad bad_minor (atoi second) λ minor. with_patch major minor rest

abbrev pub with_major : List (List ℕ) → NodeVersion
with_major [] = is_not no_version
with_major (first ∷ rest) = or_bad bad_major (atoi first) λ major. with_minor major rest

unfoldable pub node_version_from_string : List ℕ → NodeVersion
unfolding atoi split
node_version_from_string version = with_major (split b'.' version)
