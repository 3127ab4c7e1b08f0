-- ===== src/Program/Expanding.antt =====
-- How a variable of the environment gets into a file of configuration, for dcp.go.
use go_dcp.Prelude.{
  ℕ, zero, ◌-◌, ◌≡◌, refl, sym, ap, ◌∙◌, true, false, Option, some, List, [], ◌∷◌, ◌++◌, length,
  All, arith, ◌==◌,
}
use go_dcp.Config.Types.{Dcp}
use mathlib.Core.List.{append-nil, append_assoc}
use go_dcp.Program.ConfigFile.{
  outside, in_name, named, names_in, starts_with, replace_from, placeholder, expand, put_in,
  new_dcp_config,
}

-- Text without a dollar
abbrev pub IsPlain : List ℕ → Type 0
IsPlain s = All (λ c. (c == b'$') ≡ false) s

abbrev pub IsName : List ℕ → Type 0
IsName s = All (λ c. (c == b'}') ≡ false) s

names_in-plain : (s t : List ℕ) → IsPlain s → names_in outside (s ++ t) ≡ names_in outside t
unfolding names_in
names_in-plain [] t h = refl
names_in-plain (c ∷ cs) t h = rw (h.0) (names_in-plain cs t h.1)

names_in-name :
    (name s t : List ℕ)
    → IsName s
    → names_in (in_name name) (s ++ (b'}' ∷ t)) ≡ named (name ++ s) (names_in outside t)
unfolding names_in
names_in-name name [] t h = ap (λ n. named n (names_in outside t)) (sym (append-nil name))
names_in-name name (c ∷ cs) t h = rw (h.0) (
    names_in-name (name ++ (c ∷ [])) cs t h.1
    ∙ ap (λ n. named n (names_in outside t)) (append_assoc name (c ∷ []) cs))

replace_from-plain :
    (name value s t : List ℕ)
    → IsPlain s
    → replace_from zero (placeholder name) value (s ++ t)
      ≡ s ++ replace_from zero (placeholder name) value t
unfolding replace_from
replace_from-plain name value [] t h = refl
replace_from-plain name value (c ∷ cs) t h =
    let other : starts_with (placeholder name) (c ∷ (cs ++ t)) ≡ false = ground arith in
    rw other (ap (λ l. c ∷ l) (replace_from-plain name value cs t h.1))

starts_with-append : (s t : List ℕ) → starts_with s (s ++ t) ≡ true
starts_with-append [] t = refl
starts_with-append (c ∷ cs) t = ground (arith, starts_with-append cs t)

replace_from-skip :
    (old new s t : List ℕ) → replace_from (length s) old new (s ++ t) ≡ replace_from zero old new t
unfolding replace_from
replace_from-skip old new [] t = refl
replace_from-skip old new (c ∷ cs) t = replace_from-skip old new cs t

replace_from-placeholder :
    (name value t : List ℕ)
    → replace_from zero (placeholder name) value (placeholder name ++ t)
      ≡ value ++ replace_from zero (placeholder name) value t
unfolding replace_from
replace_from-placeholder name value t =
    let rest : List ℕ = b'{' ∷ (name ++ (b'}' ∷ [])) in
    let skip : length (placeholder name) - 1 ≡ length rest = omega arith in
    rw (starts_with-append (placeholder name) t) (
      ap (λ l. value ++ l)
        (ap (λ n. replace_from n (placeholder name) value (rest ++ t)) skip
          ∙ replace_from-skip (placeholder name) value rest t))

names_in-placeholder :
    (c : ℕ) (cs t : List ℕ)
    → IsName (c ∷ cs)
    → names_in outside (placeholder (c ∷ cs) ++ t) ≡ (c ∷ cs) ∷ names_in outside t
unfolding names_in
names_in-placeholder c cs t h =
    ap (names_in (in_name [])) (append_assoc (c ∷ cs) (b'}' ∷ []) t) ∙ names_in-name [] (c ∷ cs) t h

-- When a file of configuration has one placeholder, `${name}`, and no other dollar, the environment
-- has the variable, and the file can be parsed as it is, newDcpConfig answers with what parsing the
-- file with the value in the place of the placeholder adds to that.
pub new_dcp_config_lem :
    (unmarshal : List ℕ → Dcp → Option Dcp) (lookup_env : List ℕ → Option (List ℕ))
    → (empty first : Dcp) (c : ℕ) (cs value before after : List ℕ) → IsName (c ∷ cs)
    → IsPlain before
    → IsPlain after
    → lookup_env (c ∷ cs) ≡ some value
    → unmarshal (before ++ (placeholder (c ∷ cs) ++ after)) empty ≡ some first
    → new_dcp_config unmarshal lookup_env empty (some (before ++ (placeholder (c ∷ cs) ++ after)))
      ≡ unmarshal (before ++ (value ++ after)) first
unfolding new_dcp_config
new_dcp_config_lem unmarshal lookup_env empty first c cs value before after named plain plain' known
      parsed =
    let file : List ℕ = before ++ (placeholder (c ∷ cs) ++ after) in
    let nothing : names_in outside after ≡ [] =
      ap (names_in outside) (sym (append-nil after)) ∙ names_in-plain after [] plain' in
    let names : names_in outside file ≡ (c ∷ cs) ∷ [] =
      names_in-plain before (placeholder (c ∷ cs) ++ after) plain
      ∙ names_in-placeholder c cs after named
      ∙ ap (λ l. (c ∷ cs) ∷ l) nothing in
    let kept : replace_from zero (placeholder (c ∷ cs)) value after ≡ after =
      ap (replace_from zero (placeholder (c ∷ cs)) value) (sym (append-nil after))
      ∙ replace_from-plain (c ∷ cs) value after [] plain'
      ∙ append-nil after in
    let replaced : put_in (c ∷ cs) (some value) file ≡ before ++ (value ++ after) =
      replace_from-plain (c ∷ cs) value before (placeholder (c ∷ cs) ++ after) plain
      ∙ ap (λ l. before ++ l)
          (replace_from-placeholder (c ∷ cs) value after ∙ ap (λ l. value ++ l) kept) in
    rw parsed (
      ap (λ ns. unmarshal (expand lookup_env ns file) first) names
      ∙ ap (λ o. unmarshal (put_in (c ∷ cs) o file) first) known
      ∙ ap (λ t. unmarshal t first) replaced)
