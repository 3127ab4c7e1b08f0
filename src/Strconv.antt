-- ===== src/Strconv.antt =====
-- What the program uses of Go's strconv and strings: Itoa, Atoi, ParseUint, ParseBool and Split, on
-- the bytes of a text. Strconv/Decimal.antt shows that Atoi reads what Itoa writes.
pub mod Decimal
use go_dcp.Prelude.{
  ℕ, zero, suc, ◌+◌, ◌-◌, ◌*◌, ◌/◌, ◌%◌, ◌^◌, Bool, true, false, ◌||◌, Option, none, some, List, [],
  ◌∷◌, String, string_comparable, ℤ, pos, negsuc, ltb, leb, ◌==◌, if◌then◌else◌,
}

-- strconv.Itoa of a number that is not negative, before what follows it: its decimal digits, with
-- more fuel than it has.
unfoldable pub digits_before : ℕ → ℕ → List ℕ → List ℕ
digits_before zero n rest = rest
digits_before (suc fuel) n rest =
    let more = digits_before fuel (n / 10) ((b'0' + n % 10) ∷ rest) in
    if ltb n 10 then (b'0' + n) ∷ rest else more

unfoldable pub itoa : ℕ → List ℕ
unfolding digits_before
itoa n = digits_before (suc n) n []

-- The number that digits go on with, unless one of them is none.
unfoldable pub digits : ℕ → List ℕ → Option ℕ
digits acc [] = some acc
digits acc (c ∷ cs) =
    let rest = digits (acc * 10 + (c - b'0')) cs in if ltb c b'0' || ltb b'9' c then none else rest

unfoldable pub unsigned : List ℕ → Option ℕ
unfolding digits
unsigned [] = none
unsigned (c ∷ cs) = digits 0 (c ∷ cs)

-- A number, or one of the two errors of strconv. Out of range it answers with the nearest number.
pub data Parsed (A : Type 0) : Type 0 where
  valid : A → Parsed A
  no_syntax : Parsed A
  out_of_range : A → Parsed A

abbrev pub max_int : ℕ
max_int = 2 ^ 63 - 1

abbrev pub positive : Option ℕ → Parsed ℤ
positive none = no_syntax
positive (some n) = if leb n max_int then valid (pos n) else out_of_range (pos max_int)

abbrev pub negate : ℕ → ℤ
negate zero = pos 0
negate (suc n) = negsuc n

abbrev pub negative : Option ℕ → Parsed ℤ
negative none = no_syntax
negative (some n) = if leb n (max_int + 1) then valid (negate n) else out_of_range (negsuc max_int)

unfoldable pub atoi : List ℕ → Parsed ℤ
unfolding unsigned
atoi [] = no_syntax
atoi (c ∷ cs) =
    if c == b'-'
    then negative (unsigned cs)
    else if c == b'+'
    then positive (unsigned cs)
    else positive (unsigned (c ∷ cs))

abbrev pub below : ℕ → Option ℕ → Parsed ℕ
below bound none = no_syntax
below bound (some n) = if ltb n bound then valid n else out_of_range (bound - 1)

-- strconv.ParseUint of a decimal number, with the bound of its size in bits.
unfoldable pub parse_uint : ℕ → List ℕ → Parsed ℕ
unfolding unsigned
parse_uint bound s = below bound (unsigned s)

abbrev pub one_of : String → List String → Bool
one_of s [] = false
one_of s (t ∷ ts) = string_comparable.beq s t || one_of s ts

unfoldable pub parse_bool : String → Option Bool
parse_bool s =
    if one_of s ("1" ∷ "t" ∷ "T" ∷ "true" ∷ "TRUE" ∷ "True" ∷ [])
    then some true
    else if one_of s ("0" ∷ "f" ∷ "F" ∷ "false" ∷ "FALSE" ∷ "False" ∷ [])
    then some false
    else none

abbrev pub onto_first : ℕ → List (List ℕ) → List (List ℕ)
onto_first c [] = (c ∷ []) ∷ []
onto_first c (piece ∷ pieces) = (c ∷ piece) ∷ pieces

-- strings.Split at a single byte
unfoldable pub split : ℕ → List ℕ → List (List ℕ)
split sep [] = [] ∷ []
split sep (c ∷ cs) = let rest = split sep cs in if c == sep then [] ∷ rest else onto_first c rest
