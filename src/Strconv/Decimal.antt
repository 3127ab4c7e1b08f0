-- ===== src/Strconv/Decimal.antt =====
-- Numbers written by Itoa and read by Atoi, and texts that are split again.
use go_dcp.Prelude.{
  ℕ, zero, suc, ◌+◌, ◌/◌, ◌%◌, ◌≤◌, ◌<◌, ◌≡◌, refl, ap, ◌∙◌, inl, inr, true, false, some, List, [],
  ◌∷◌, ◌++◌, All, pos, arith, ltb, leb, ◌==◌, ltb→lt_false, Bool-cases,
}
use mathlib.Core.List.{append-nil}
use go_dcp.Strconv.{
  digits_before, itoa, digits, unsigned, valid, max_int, positive, atoi, onto_first, split,
}

abbrev pub IsDigit : ℕ → Type 0
IsDigit c = (b'0' ≤ c) × (c ≤ b'9')

pub digits_before-IsDigit :
    (fuel n : ℕ) (rest : List ℕ) → All IsDigit rest → All IsDigit (digits_before fuel n rest)
unfolding digits_before
digits_before-IsDigit zero n rest h = h
digits_before-IsDigit (suc fuel) n rest h = elim (Bool-cases (ltb n 10)) [
  | inl small ↦ rw small (ground arith, h)
  | inr large ↦ rw large (digits_before-IsDigit fuel (n / 10) _ (omega arith, h))
]

pub itoa-IsDigit : (n : ℕ) → All IsDigit (itoa n)
unfolding itoa
itoa-IsDigit n = digits_before-IsDigit (suc n) n [] tt

unsigned-digits_before :
    (fuel n : ℕ) (rest : List ℕ) → n < fuel → unsigned (digits_before fuel n rest) ≡ digits n rest
unfolding digits_before unsigned
unsigned-digits_before zero n rest h = elim h [ ]
unsigned-digits_before (suc fuel) n rest h = elim (Bool-cases (ltb n 10)) [
  | inl small ↦ rw small (ground arith)
  | inr large ↦ rw large (
      unsigned-digits_before fuel (n / 10) ((b'0' + n % 10) ∷ rest)
        (omega (arith, ltb→lt_false n 10 large))
      ∙ ground arith)
]

pub unsigned-itoa : (n : ℕ) → unsigned (itoa n) ≡ some n
unfolding itoa digits
unsigned-itoa n = unsigned-digits_before (suc n) n [] (omega arith)

-- A text of digits that is a number is read by Atoi as well.
atoi-unsigned :
    (s : List ℕ) (n : ℕ)
    → All IsDigit s
    → unsigned s ≡ some n
    → n ≤ max_int
    → atoi s ≡ valid (pos n)
unfolding atoi unsigned
atoi-unsigned [] n h e le = absurd (ground arith)
atoi-unsigned (c ∷ cs) n h e le =
    let not_minus : (c == b'-') ≡ false = ground arith in
    let not_plus : (c == b'+') ≡ false = ground arith in
    let fits : leb n max_int ≡ true = ground arith in
    rw (not_minus, not_plus) (ap positive e ∙ rw fits)

pub atoi-itoa : (n : ℕ) → n ≤ max_int → atoi (itoa n) ≡ valid (pos n)
atoi-itoa n le = atoi-unsigned (itoa n) n (itoa-IsDigit n) (unsigned-itoa n) le

abbrev pub onto_first_all : List ℕ → List (List ℕ) → List (List ℕ)
onto_first_all [] pieces = pieces
onto_first_all (c ∷ cs) pieces = onto_first c (onto_first_all cs pieces)

-- A text without the separator goes to the front of the first piece of what follows it.
pub split-append :
    (sep : ℕ) (s t : List ℕ)
    → All (λ c. (c == sep) ≡ false) s
    → split sep (s ++ t) ≡ onto_first_all s (split sep t)
unfolding split
split-append sep [] t h = refl
split-append sep (c ∷ cs) t h = rw (h.0) (ap (onto_first c) (split-append sep cs t h.1))

pub onto_first_all-cons :
    (s p : List ℕ) (ps : List (List ℕ)) → onto_first_all s (p ∷ ps) ≡ (s ++ p) ∷ ps
onto_first_all-cons [] p ps = refl
onto_first_all-cons (c ∷ cs) p ps = rw (onto_first_all-cons cs p ps)

-- What is split at a separator is never empty.
pub split_cons :
    (sep : ℕ) (s : List ℕ) → (p : List ℕ) × (ps : List (List ℕ)) × (split sep s ≡ p ∷ ps)
unfolding split
split_cons sep [] = ([], [], refl)
split_cons sep (c ∷ cs) =
    let (p, ps, e) = split_cons sep cs in
    elim (Bool-cases (c == sep)) [
      | inl here ↦ ([], p ∷ ps, rw here (ap (λ l. [] ∷ l) e))
      | inr other ↦ (c ∷ p, ps, rw other (ap (onto_first c) e))
    ]

pub split_at :
    (sep : ℕ) (s t : List ℕ)
    → All (λ c. (c == sep) ≡ false) s
    → split sep (s ++ (sep ∷ t)) ≡ s ∷ split sep t
unfolding split
split_at sep s t h =
    let here : (sep == sep) ≡ true = ground arith in
    split-append sep s (sep ∷ t) h
    ∙ rw here (onto_first_all-cons s [] (split sep t) ∙ ap (λ l. l ∷ split sep t) (append-nil s))
