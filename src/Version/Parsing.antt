-- ===== src/Version/Parsing.antt =====
-- Versions read by nodeVersionFromString of couchbase/version.go.
use go_dcp.Prelude.{
  ℕ, ◌≤◌, ◌≡◌, refl, sym, ap, ◌∙◌, ◌⊎◌, inl, inr, false, List, [], ◌∷◌, ◌++◌, All, ℤ, pos, arith,
  ◌==◌,
}
use go_dcp.Strconv.{max_int, itoa, split, onto_first}
use go_dcp.Strconv.Decimal.{
  IsDigit, itoa-IsDigit, atoi-itoa, onto_first_all, onto_first_all-cons, split-append, split_at,
  split_cons,
}
use mathlib.Core.List.{append-nil}
use go_dcp.Version.{
  or_bad, bad_major, bad_minor, bad_patch, version_of, build_of, number_or_zero, is_version,
  with_major, with_minor, with_patch, with_build, node_version_from_string,
}

-- Digits hold neither of the separators.
without :
    (sep : ℕ) (s : List ℕ)
    → (sep ≡ b'.') ⊎ (sep ≡ b'-')
    → All IsDigit s
    → All (λ c. (c == sep) ≡ false) s
without sep [] h d = tt
without sep (c ∷ cs) h d = (ground arith, without sep cs h d.1)

-- What may follow the build: nothing, or a dash and any text, such as an edition.
abbrev pub IsTail : List ℕ → Type 0
IsTail [] = Unit
IsTail (c ∷ cs) = c ≡ b'-'

-- The part of the tail before the next dot is a tail as well.
first_piece :
    (t : List ℕ)
    → IsTail t
    → (p : List ℕ) × (ps : List (List ℕ)) × (split b'.' t ≡ p ∷ ps) × IsTail p
unfolding split
first_piece [] h = ([], [], refl, tt)
first_piece (c ∷ cs) h =
    let (p, ps, e) = split_cons b'.' cs in
    let dash : (c == b'.') ≡ false = ground arith in (c ∷ p, ps, rw dash (ap (onto_first c) e), h)

-- The build ends where its tail begins.
split_build :
    (s t : List ℕ)
    → All (λ c. (c == b'-') ≡ false) s
    → IsTail t
    → (ps : List (List ℕ)) × (split b'-' (s ++ t) ≡ s ∷ ps)
unfolding split
split_build s [] h tail =
    ([], split-append b'-' s [] h ∙ onto_first_all-cons s [] [] ∙ ap (λ l. l ∷ []) (append-nil s))
split_build s (c ∷ cs) h tail = (split b'-' cs, rw tail (split_at b'-' s cs h))

-- The third part of a version with a build: up to the next dot of what follows the build.
third_part :
    (c d t : List ℕ)
    → All IsDigit c
    → All IsDigit d
    → IsTail t
    → (p : List ℕ) × (ps : List (List ℕ)) × (split b'.' (c ++ (b'-' ∷ (d ++ t)))
        ≡ (c ++ (b'-' ∷ (d ++ p))) ∷ ps)
      × IsTail p
unfolding split
third_part c d t digits_c digits_d tail =
    let (p, ps, e, tail') = first_piece t tail in
    (
      p,
      ps,
      split-append b'.' c (b'-' ∷ (d ++ t)) (without b'.' c (inl refl) digits_c)
          ∙ ap (λ l. onto_first_all c (onto_first b'-' l))
              (split-append b'.' d t (without b'.' d (inl refl) digits_d)
                ∙ ap (onto_first_all d) e
                ∙ onto_first_all-cons d p ps)
          ∙ onto_first_all-cons c (b'-' ∷ (d ++ p)) ps,
      tail',
    )

with_build_lem :
    (a b : ℤ) (c d : ℕ) (p : List ℕ)
    → c ≤ max_int
    → d ≤ max_int
    → IsTail p
    → with_build a b (split b'-' (itoa c ++ (b'-' ∷ (itoa d ++ p))))
      ≡ is_version (record { major = a; minor = b; patch = pos c; build = pos d })
with_build_lem a b c d p fits_c fits_d tail =
    let (ps, build) =
      split_build (itoa d) p (without b'-' (itoa d) (inr refl) (itoa-IsDigit d)) tail in
    let (qs, again) =
      split_build (itoa d) [] (without b'-' (itoa d) (inr refl) (itoa-IsDigit d)) tt in
    ap (with_build a b) (
      split_at b'-' (itoa c) (itoa d ++ p) (without b'-' (itoa c) (inr refl) (itoa-IsDigit c))
      ∙ ap (λ l. itoa c ∷ l) build)
    ∙ ap (λ r. or_bad bad_patch r λ n. version_of a b n (build_of (split b'-' (itoa d))))
        (atoi-itoa c fits_c)
    ∙ ap (λ l. version_of a b (pos c) (build_of l))
        (ap (split b'-') (sym (append-nil (itoa d))) ∙ again)
    ∙ ap (λ r. version_of a b (pos c) (number_or_zero r)) (atoi-itoa d fits_d)

-- A version of four numbers that fit in an int, written with dots and a dash before the build, is
-- read as these numbers, whatever edition follows the build after another dash.
pub node_version_from_string_lem :
    (a b c d : ℕ) (t : List ℕ)
    → a ≤ max_int
    → b ≤ max_int
    → c ≤ max_int
    → d ≤ max_int
    → IsTail t
    → node_version_from_string
        (itoa a ++ (b'.' ∷ (itoa b ++ (b'.' ∷ (itoa c ++ (b'-' ∷ (itoa d ++ t)))))))
      ≡ is_version (record { major = pos a; minor = pos b; patch = pos c; build = pos d })
unfolding node_version_from_string
node_version_from_string_lem a b c d t fits_a fits_b fits_c fits_d tail =
    let (p, ps, third, tail') =
      third_part (itoa c) (itoa d) t (itoa-IsDigit c) (itoa-IsDigit d) tail in
    ap with_major (
      split_at b'.' (itoa a) _ (without b'.' (itoa a) (inl refl) (itoa-IsDigit a))
      ∙ ap (λ l. itoa a ∷ l)
          (split_at b'.' (itoa b) _ (without b'.' (itoa b) (inl refl) (itoa-IsDigit b))
            ∙ ap (λ l. itoa b ∷ l) third))
    ∙ ap
        (λ r.
          or_bad bad_major r
            λ major. with_minor major (itoa b ∷ (itoa c ++ (b'-' ∷ (itoa d ++ p))) ∷ ps))
        (atoi-itoa a fits_a)
    ∙ ap
        (λ r.
          or_bad bad_minor r
            λ minor. with_patch (pos a) minor ((itoa c ++ (b'-' ∷ (itoa d ++ p))) ∷ ps))
        (atoi-itoa b fits_b)
    ∙ with_build_lem (pos a) (pos b) c d p fits_c fits_d tail'
