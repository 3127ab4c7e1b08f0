-- ===== src/Program/ConfigFile.antt =====
-- dcp.go: newDcpConfig, which reads a file of configuration and puts in the values of variables of
-- the environment. The parser of YAML is a parameter, which sets fields of the configuration that it
-- is given; texts are bytes.
use go_dcp.Prelude.{
  ℕ, zero, suc, ◌-◌, Bool, true, false, ◌&&◌, Option, none, some, List, [], ◌∷◌, ◌++◌, length, ◌==◌,
  if◌then◌else◌, ◌>>=◌,
}
use go_dcp.Config.Types.{Dcp}

-- Where the search for `\${([^}]+)}` stands: outside, after a dollar, or in a name so far.
pub data Scan : Type 0 where
  outside after_dollar : Scan
  in_name : List ℕ → Scan

abbrev pub named : List ℕ → List (List ℕ) → List (List ℕ)
named [] names = names
named (c ∷ cs) names = (c ∷ cs) ∷ names

-- The names of the matches, from the left.
unfoldable pub names_in : Scan → List ℕ → List (List ℕ)
names_in scan [] = []
names_in outside (c ∷ cs) =
    let dollar = names_in after_dollar cs in
    let rest = names_in outside cs in if c == b'$' then dollar else rest
names_in after_dollar (c ∷ cs) =
    let name = names_in (in_name []) cs in
    let dollar = names_in after_dollar cs in
    let rest = names_in outside cs in if c == b'{' then name else if c == b'$' then dollar else rest
names_in (in_name name) (c ∷ cs) =
    let rest = names_in outside cs in
    let longer = names_in (in_name (name ++ (c ∷ []))) cs in
    if c == b'}' then named name rest else longer

abbrev pub starts_with : List ℕ → List ℕ → Bool
starts_with [] s = true
starts_with (c ∷ cs) [] = false
starts_with (c ∷ cs) (d ∷ ds) = c == d && starts_with cs ds

-- strings.ReplaceAll of a text that is not empty; the first argument counts the bytes of a match
-- that are still to be left out.
unfoldable pub replace_from : ℕ → List ℕ → List ℕ → List ℕ → List ℕ
replace_from skip old new [] = []
replace_from (suc skip) old new (c ∷ cs) = replace_from skip old new cs
replace_from zero old new (c ∷ cs) =
    let rest = replace_from zero old new cs in
    let after = replace_from (length old - 1) old new cs in
    if starts_with old (c ∷ cs) then new ++ after else c ∷ rest

abbrev pub placeholder : List ℕ → List ℕ
placeholder name = b'$' ∷ b'{' ∷ (name ++ (b'}' ∷ []))

abbrev pub put_in : List ℕ → Option (List ℕ) → List ℕ → List ℕ
unfolding replace_from
put_in name none file = file
put_in name (some value) file = replace_from zero (placeholder name) value file

-- The replacements for the names, one after another.
unfoldable pub expand : (List ℕ → Option (List ℕ)) → List (List ℕ) → List ℕ → List ℕ
unfolding replace_from
expand lookup_env [] file = file
expand lookup_env (name ∷ names) file = expand lookup_env names (put_in name (lookup_env name) file)

-- `none` is an error, of the file or of the parser. The second parse goes on with what the first
-- has set.
unfoldable pub new_dcp_config :
    (List ℕ → Dcp → Option Dcp) → (List ℕ → Option (List ℕ)) → Dcp → Option (List ℕ) → Option Dcp
unfolding names_in expand
new_dcp_config unmarshal lookup_env empty read_file = do
  file ← read_file
  c ← unmarshal file empty
  unmarshal (expand lookup_env (names_in outside file) file) c
