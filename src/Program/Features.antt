-- ===== src/Program/Features.antt =====
-- With which features a client connects, for dcp.go.
use go_dcp.Prelude.{ℕ, ◌≡◌, ◌⊎◌, ◌++◌, List, ◌∷◌, pos}
use go_dcp.Strconv.{itoa}
use go_dcp.Version.{Version}
use go_dcp.Version.Order.{IsAfter}

abbrev pub IsAtLeast : Version → Version → Type 0
IsAtLeast v limit = (v ≡ limit) ⊎ IsAfter v limit

-- The text of a version with its build, and what follows the build.
abbrev pub version_text : ℕ → ℕ → ℕ → ℕ → List ℕ → List ℕ
version_text a b c d t = itoa a ++ (b'.' ∷ (itoa b ++ (b'.' ∷ (itoa c ++ (b'-' ∷ (itoa d ++ t))))))

abbrev pub version_at : ℕ → ℕ → ℕ → ℕ → Version
version_at a b c d = record { major = pos a; minor = pos b; patch = pos c; build = pos d }
