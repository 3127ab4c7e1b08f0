-- ===== src/Helpers/Units.antt =====
-- Sizes written with a unit, for helpers/data_units.go.
use go_dcp.Prelude.{
  ℕ, ◌+◌, ◌-◌, ◌*◌, ◌^◌, ◌≤◌, ◌<◌, ◌≡◌, ◌==◌, refl, ap, ap₂, ◌∙◌, false, ltb, le→ltb_false, none,
  some, List, [], ◌∷◌, ◌++◌, map, length, take, drop, All, String, codes, pos, arith, length-append,
  ◌>>=◌,
}
use go_dcp.Strconv.{no_syntax, positive, itoa, digits, unsigned, atoi}
use go_dcp.Strconv.Decimal.{IsDigit, itoa-IsDigit, unsigned-itoa}
use go_dcp.Config.Types.{text}
use go_dcp.Helpers.DataUnits.{
  Floats, IsExact, trim_left, trim_right, trim_space, with_point, to_upper, without_last, last_of,
  in_unit, or_with_unit, convert_size_unit_to_byte, resolve_union_int_or_string_value,
}

-- The units that the code knows, without the one that it cannot meet.
pub data SizeUnit : Type 0 where
  kb mb gb : SizeUnit

-- The letter before the B, in upper case.
abbrev pub letter : SizeUnit → ℕ
letter kb = b'K'
letter mb = b'M'
letter gb = b'G'

abbrev pub unit_factor : SizeUnit → ℕ
unit_factor kb = 1024
unit_factor mb = 1048576
unit_factor gb = 1073741824

trim_right_lem : (s : List ℕ) → All IsDigit s → trim_right s ≡ s
unfolding trim_right
trim_right_lem [] h = refl
trim_right_lem (c ∷ []) h = ground arith
trim_right_lem (c ∷ d ∷ ds) h = rw (trim_right_lem (d ∷ ds) h.1) refl

trim_left_lem : (s : List ℕ) → All IsDigit s → trim_left s ≡ s
unfolding trim_left
trim_left_lem [] h = refl
trim_left_lem (c ∷ cs) h = ground arith

trim_space_lem : (s : List ℕ) → All IsDigit s → trim_space s ≡ s
unfolding trim_space
trim_space_lem s h = ap trim_right (trim_left_lem s h) ∙ trim_right_lem s h

map-with_point : (s : List ℕ) → All IsDigit s → map with_point s ≡ s
map-with_point [] h = refl
map-with_point (c ∷ cs) h =
    let e : with_point c ≡ c = ground arith in rw (e, map-with_point cs h.1) refl

take_front : (s t : List ℕ) → take (length s) (s ++ t) ≡ s
take_front [] t = refl
take_front (c ∷ cs) t = ap (λ l. c ∷ l) (take_front cs t)

drop_front : (s t : List ℕ) → drop (length s) (s ++ t) ≡ t
drop_front [] t = refl
drop_front (c ∷ cs) t = drop_front cs t

digits-letter :
    (s : List ℕ) (acc c : ℕ) (t : List ℕ)
    → All IsDigit s
    → b'9' < c
    → digits acc (s ++ (c ∷ t)) ≡ none
unfolding digits
digits-letter [] acc c t h lt = ground arith
digits-letter (d ∷ ds) acc c t h lt =
    ground (arith, digits-letter ds (acc * 10 + (d - b'0')) c t h.1 lt)

letter-above : (k : SizeUnit) (a : ℕ) → to_upper a ≡ letter k → b'9' < a
letter-above kb a e = ground arith
letter-above mb a e = ground arith
letter-above gb a e = ground arith

factor_pos : (k : SizeUnit) (n : ℕ) → n ≤ n * unit_factor k
factor_pos kb n = omega arith
factor_pos mb n = omega arith
factor_pos gb n = omega arith

without_last-append : (s : List ℕ) (a b : ℕ) → without_last 2 (s ++ (a ∷ b ∷ [])) ≡ s
without_last-append s a b =
    ap (λ n. take n (s ++ (a ∷ b ∷ []))) (omega (arith, length-append s (a ∷ b ∷ [])))
    ∙ take_front s (a ∷ b ∷ [])

last_of-append : (s : List ℕ) (a b : ℕ) → last_of 2 (s ++ (a ∷ b ∷ [])) ≡ a ∷ b ∷ []
last_of-append s a b =
    ap (λ n. drop n (s ++ (a ∷ b ∷ []))) (omega (arith, length-append s (a ∷ b ∷ [])))
    ∙ drop_front s (a ∷ b ∷ [])

-- A number with a letter behind it is none for strconv.
atoi-letter :
    (s : List ℕ) (n c : ℕ) (t : List ℕ)
    → All IsDigit s
    → unsigned s ≡ some n
    → b'9' < c
    → atoi (s ++ (c ∷ t)) ≡ no_syntax
unfolding atoi unsigned
atoi-letter [] n c t h e lt = ground arith
atoi-letter (d ∷ ds) n c t h e lt =
    let dash : (d == b'-') ≡ false = ground arith in
    let plus : (d == b'+') ≡ false = ground arith in
    rw (dash, plus) (ap positive (digits-letter (d ∷ ds) 0 c t h lt))

module _ (f : Floats) (exact : IsExact f) where
  open f use {of_nat, times, to_int}

  in_unit_lem :
      (k : SizeUnit) (n : ℕ)
      → n * unit_factor k ≤ 2 ^ 53
      → in_unit f (letter k ∷ b'B' ∷ []) (of_nat n) ≡ some (pos (n * unit_factor k))
  in_unit_lem kb n fits =
      rw (exact.times-of_nat n 1024 (omega arith))
        (ap some (exact.to_int-of_nat (n * 1024) (omega arith)))
  in_unit_lem mb n fits = rw (exact.times-of_nat n 1024 (omega arith)) (
      rw (exact.times-of_nat (n * 1024) 1024 (omega arith))
        (ap some (exact.to_int-of_nat (n * 1024 * 1024) (omega arith) ∙ ap pos (omega arith))))
  in_unit_lem gb n fits = rw (exact.times-of_nat n 1024 (omega arith)) (
      rw (exact.times-of_nat (n * 1024) 1024 (omega arith)) (
        rw (exact.times-of_nat (n * 1024 * 1024) 1024 (omega arith)) (
          ap some
            (exact.to_int-of_nat (n * 1024 * 1024 * 1024) (omega arith) ∙ ap pos (omega arith)))))

  convert_size_unit_to_byte_lem :
      (k : SizeUnit) (n a b : ℕ)
      → to_upper a ≡ letter k
      → to_upper b ≡ b'B'
      → n * unit_factor k ≤ 2 ^ 53
      → convert_size_unit_to_byte f (itoa n ++ (a ∷ b ∷ [])) ≡ some (pos (n * unit_factor k))
  unfolding convert_size_unit_to_byte
  convert_size_unit_to_byte_lem k n a b upper_a upper_b fits =
      let s : List ℕ = itoa n ++ (a ∷ b ∷ []) in
      let long : ltb (length s) 2 ≡ false =
        le→ltb_false _ _ (omega (arith, length-append (itoa n) (a ∷ b ∷ []))) in
      let small : n ≤ 2 ^ 53 = omega (arith, factor_pos k n) in
      let number : map with_point (trim_space (without_last 2 s)) ≡ itoa n =
        ap (λ t. map with_point (trim_space t)) (without_last-append (itoa n) a b)
        ∙ ap (map with_point) (trim_space_lem (itoa n) (itoa-IsDigit n))
        ∙ map-with_point (itoa n) (itoa-IsDigit n) in
      let unit : map to_upper (last_of 2 s) ≡ letter k ∷ b'B' ∷ [] =
        ap (map to_upper) (last_of-append (itoa n) a b) ∙ ap₂ (λ x y. x ∷ y ∷ []) upper_a upper_b in
      rw long (
        ap₂ (λ t u. f.parse t >>= in_unit f u) number unit
        ∙ rw (exact.parse-itoa n small) (in_unit_lem k n fits))

  -- Exact floats read a whole number with KB, MB or GB behind it, in letters of any case, as that
  -- many bytes, as long as these are at most 2 ^ 53.
  pub resolve_union_int_or_string_value-unit :
      (value : String) (k : SizeUnit) (n a b : ℕ)
      → codes value ≡ itoa n ++ (a ∷ b ∷ [])
      → to_upper a ≡ letter k
      → to_upper b ≡ b'B'
      → n * unit_factor k ≤ 2 ^ 53
      → resolve_union_int_or_string_value f (some (text value)) ≡ some (pos (n * unit_factor k))
  unfolding resolve_union_int_or_string_value
  resolve_union_int_or_string_value-unit value k n a b e upper_a upper_b fits =
      ap (λ s. or_with_unit f s (atoi s)) e
      ∙ ap (or_with_unit f (itoa n ++ (a ∷ b ∷ []))) (
          atoi-letter (itoa n) n a (b ∷ []) (itoa-IsDigit n) (unsigned-itoa n)
            (letter-above k a upper_a))
      ∙ convert_size_unit_to_byte_lem k n a b upper_a upper_b fits
