-- ===== src/Helpers/DataUnits.antt =====
-- helpers/data_units.go: sizes that are written with a unit.
use go_dcp.Prelude.{
  ℕ, ◌-◌, ◌*◌, ◌^◌, ◌≤◌, ◌≡◌, Bool, true, false, ◌&&◌, ◌||◌, Option, none, some, List, [], ◌∷◌, map,
  length, take, drop, ℤ, pos, negsuc, ltb, leb, ◌==◌, if◌then◌else◌, ◌>>=◌, codes,
}
use go_dcp.Strconv.{Parsed, valid, no_syntax, out_of_range, max_int, atoi, itoa}
use go_dcp.Config.Types.{Size, int, uint, text, other}

-- What is used of Go's float64 and of strconv.ParseFloat, whose text may be no number.
pub record Floats : Type 1 where
  pub Float : Type 0
  pub parse : List ℕ → Option Float
  pub of_nat : ℕ → Float
  pub times : Float → Float → Float
  pub to_int : Float → ℤ

-- Whole numbers up to 2 ^ 53 are exact.
pub record IsExact (f : Floats) : Type 0 where
  pub parse-itoa : (n : ℕ) → n ≤ 2 ^ 53 → f.parse (itoa n) ≡ some (f.of_nat n)
  pub times-of_nat :
      (m n : ℕ) → m * n ≤ 2 ^ 53 → f.times (f.of_nat m) (f.of_nat n) ≡ f.of_nat (m * n)
  pub to_int-of_nat : (n : ℕ) → n ≤ 2 ^ 53 → f.to_int (f.of_nat n) ≡ pos n

-- The spaces of ASCII
abbrev pub is_space : ℕ → Bool
is_space c = (leb 9 c && leb c 13) || c == 32

unfoldable pub trim_left : List ℕ → List ℕ
trim_left [] = []
trim_left (c ∷ cs) = let rest = trim_left cs in if is_space c then rest else c ∷ cs

unfoldable pub trim_right : List ℕ → List ℕ
trim_right [] = []
trim_right (c ∷ cs) = elim (trim_right cs) [
  | [] ↦ if is_space c then [] else c ∷ []
  | d ∷ ds ↦ c ∷ d ∷ ds
]

unfoldable pub trim_space : List ℕ → List ℕ
unfolding trim_left trim_right
trim_space s = trim_right (trim_left s)

-- strings.ReplaceAll(s, ",", ".")
abbrev pub with_point : ℕ → ℕ
with_point c = if c == b',' then b'.' else c

abbrev pub to_upper : ℕ → ℕ
to_upper c = if leb b'a' c && leb c b'z' then c - 32 else c

-- The text before its last n bytes, and these bytes.
abbrev pub without_last : ℕ → List ℕ → List ℕ
without_last n s = take (length s - n) s

abbrev pub last_of : ℕ → List ℕ → List ℕ
last_of n s = drop (length s - n) s

abbrev pub is_unit : List ℕ → List ℕ → Bool
is_unit [] [] = true
is_unit [] (d ∷ ds) = false
is_unit (c ∷ cs) [] = false
is_unit (c ∷ cs) (d ∷ ds) = c == d && is_unit cs ds

-- int(value) of an unsigned number of 64 bits
abbrev pub int_of_uint : ℕ → ℤ
int_of_uint n = if leb n max_int then pos n else negsuc (2 ^ 64 - 1 - n)

module _ (f : Floats) where
  open f use {Float, parse, of_nat, times, to_int}

  abbrev pub thousand : Float → Float
  thousand size = times size (of_nat 1024)

  -- `none` is an error
  abbrev pub in_unit : List ℕ → Float → Option ℤ
  in_unit unit size =
      if is_unit unit (b'B' ∷ [])
      then some (to_int size)
      else if is_unit unit (b'K' ∷ b'B' ∷ [])
      then some (to_int (thousand size))
      else if is_unit unit (b'M' ∷ b'B' ∷ [])
      then some (to_int (thousand (thousand size)))
      else if is_unit unit (b'G' ∷ b'B' ∷ [])
      then some (to_int (thousand (thousand (thousand size))))
      else none

  unfoldable pub convert_size_unit_to_byte : List ℕ → Option ℤ
  unfolding trim_space
  convert_size_unit_to_byte str =
      if ltb (length str) 2
      then none
      else (parse (map with_point (trim_space (without_last 2 str)))
          >>= in_unit (map to_upper (last_of 2 str)))

  -- Of a text: what it is as a number, or with a unit. `none` is a panic.
  abbrev pub or_with_unit : List ℕ → Parsed ℤ → Option ℤ
  unfolding convert_size_unit_to_byte
  or_with_unit s (valid n) = some n
  or_with_unit s no_syntax = convert_size_unit_to_byte s
  or_with_unit s (out_of_range n) = convert_size_unit_to_byte s

  -- The argument is nil where it is `none`.
  unfoldable pub resolve_union_int_or_string_value : Option Size → Option ℤ
  unfolding convert_size_unit_to_byte atoi
  resolve_union_int_or_string_value none = some (pos 0)
  resolve_union_int_or_string_value (some (int value)) = some value
  resolve_union_int_or_string_value (some (uint value)) = some (int_of_uint value)
  resolve_union_int_or_string_value (some (text value)) =
      or_with_unit (codes value) (atoi (codes value))
  resolve_union_int_or_string_value (some other) = some (pos 0)
