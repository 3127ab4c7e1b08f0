-- ===== src/Examples/Versions.antt =====
-- A version of a server, as the cluster manager reports it, for couchbase/version.go.
use go_dcp.Prelude.{ℕ, ◌≡◌, refl, List, [], ◌∷◌, pos, arith}
use go_dcp.Strconv.{itoa}
use go_dcp.Version.{is_version, is_not, bad_minor, node_version_from_string}
use go_dcp.Version.Parsing.{node_version_from_string_lem}

-- "-enterprise"
abbrev pub edition : List ℕ
edition = b'-' ∷ b'e' ∷ b'n' ∷ b't' ∷ b'e' ∷ b'r' ∷ b'p' ∷ b'r' ∷ b'i' ∷ b's' ∷ b'e' ∷ []

-- "7.2.0-5325"
abbrev text : List ℕ
text = b'7' ∷ b'.' ∷ b'2' ∷ b'.' ∷ b'0' ∷ b'-' ∷ b'5' ∷ b'3' ∷ b'2' ∷ b'5' ∷ edition

no_minor : node_version_from_string (b'7' ∷ b'.' ∷ b'x' ∷ []) ≡ is_not bad_minor
unfolding node_version_from_string
no_minor = refl

node_version_from_string_lem_example :
    node_version_from_string text
    ≡ is_version (record { major = pos 7; minor = pos 2; patch = pos 0; build = pos 5325 })
unfolding itoa
node_version_from_string_lem_example =
    node_version_from_string_lem 7 2 0 5325 edition (omega arith) (omega arith) (omega arith)
      (omega arith) refl
