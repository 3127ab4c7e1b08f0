-- ===== src/Metadata/Ids.antt =====
-- The keys of the checkpoint documents: getCheckpointID of couchbase/metadata.go.
use go_dcp.Prelude.{
  ℕ, zero, suc, ◌+◌, ◌-◌, ◌*◌, ◌/◌, ◌%◌, ◌<◌, ◌≡◌, ◌≢◌, ◌∙◌, sym, ap, inl, inr, Bool, true, false,
  Option, none, some, List, [], ◌∷◌, ◌++◌, arith, ltb, ◌==◌, ltb→lt_false, Bool-cases, codes,
  if◌then◌else◌,
}
use go_dcp.Helpers.{prefix}
use go_dcp.Strconv.{itoa, digits_before}

unfoldable pub contains_dot : List ℕ → Bool
contains_dot [] = false
contains_dot (c ∷ cs) = if c == b'.' then true else contains_dot cs

-- `none` is the panic at a group name with a dot.
unfoldable pub get_checkpoint_id : ℕ → List ℕ → Option (List ℕ)
unfolding itoa contains_dot
get_checkpoint_id vb_id group_name =
    if contains_dot group_name
    then none
    else some (codes prefix ++ (group_name ++ (codes ":checkpoint:" ++ itoa vb_id)))

number_from : ℕ → List ℕ → ℕ
number_from acc [] = acc
number_from acc (d ∷ ds) = number_from (acc * 10 + (d - b'0')) ds

number-digits_before :
    (fuel n : ℕ) (rest : List ℕ)
    → n < fuel
    → number_from 0 (digits_before fuel n rest) ≡ number_from n rest
unfolding digits_before number_from
number-digits_before zero n rest h = elim h [ ]
number-digits_before (suc fuel) n rest h = elim (Bool-cases (ltb n 10)) [
  | inl small ↦ rw small (ap (λ k. number_from k rest) (omega arith))
  | inr large ↦ rw large (
      number-digits_before fuel (n / 10) ((b'0' + n % 10) ∷ rest)
        (omega (arith, ltb→lt_false n 10 large))
      ∙ ap (λ k. number_from k rest) (omega arith))
]

number-itoa : (n : ℕ) → number_from 0 (itoa n) ≡ n
unfolding itoa number_from
number-itoa n = number-digits_before (suc n) n [] (omega arith)

cancel_left {ℓ} : {A : Type ℓ} (xs ys zs : List A) → xs ++ ys ≡ xs ++ zs → ys ≡ zs
cancel_left [] ys zs h = h
cancel_left (x ∷ xs) ys zs h = cancel_left xs ys zs (cc)

pub get_checkpoint_id-injective :
    (group_name : List ℕ) (v w : ℕ) (id : List ℕ)
    → get_checkpoint_id v group_name ≡ some id
    → get_checkpoint_id w group_name ≡ some id
    → v ≡ w
unfolding get_checkpoint_id
get_checkpoint_id-injective group_name v w id p q = elim (Bool-cases (contains_dot group_name)) [
  | inl dotted ↦ absurd (ground arith)
  | inr plain ↦
      let same : some (codes prefix ++ (group_name ++ (codes ":checkpoint:" ++ itoa v)))
          ≡ some (codes prefix ++ (group_name ++ (codes ":checkpoint:" ++ itoa w))) =
        ground arith in
      let lists : codes prefix ++ (group_name ++ (codes ":checkpoint:" ++ itoa v))
          ≡ codes prefix ++ (group_name ++ (codes ":checkpoint:" ++ itoa w)) =
        cc in
      let digits =
        cancel_left (codes ":checkpoint:") _ _
          (cancel_left group_name _ _ (cancel_left (codes prefix) _ _ lists)) in
      sym (number-itoa v) ∙ ap (number_from 0) digits ∙ number-itoa w
]

-- Two vBuckets never share a key: in one group, the documents of different vBuckets have different
-- keys, where the group's name is accepted at all.
pub get_checkpoint_id-differs :
    (group_name : List ℕ) (v w : ℕ) (id id' : List ℕ)
    → v ≢ w
    → get_checkpoint_id v group_name ≡ some id
    → get_checkpoint_id w group_name ≡ some id'
    → id ≢ id'
get_checkpoint_id-differs group_name v w id id' apart p q same =
    apart (get_checkpoint_id-injective group_name v w id' (p ∙ ap some same) q)
