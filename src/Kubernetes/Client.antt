-- ===== src/Kubernetes/Client.antt =====
-- kubernetes/client.go: the namespace, and the identity of a pod. What the environment, the files and
-- Kubernetes answer is an argument; texts are bytes, and an empty one is that of a variable that is
-- not set.
use go_dcp.Prelude.{
  ℕ, zero, suc, ◌+◌, ◌≤◌, ◌≡◌, ◌≢◌, ap, sym, ◌∙◌, Option, none, some, List, [], ◌∷◌, codes, arith,
}
use go_dcp.Helpers.DataUnits.{trim_space}

abbrev or_default : List ℕ → List ℕ
or_default [] = codes "default"
or_default (c ∷ cs) = c ∷ cs

abbrev of_file : Option (List ℕ) → List ℕ
unfolding trim_space
of_file none = codes "default"
of_file (some contents) = or_default (trim_space contents)

-- The file is that of the service account.
unfoldable pub get_namespace : List ℕ → Option (List ℕ) → List ℕ
unfolding trim_space
get_namespace [] file = of_file file
get_namespace (c ∷ cs) file = c ∷ cs

abbrev or_again : Option (List ℕ) → Option (List ℕ) → Option (List ℕ)
or_again none again = none
or_again (some []) again = again
or_again (some (c ∷ cs)) again = some (c ∷ cs)

-- The attempts that are left, and the number of the next; `none` is a panic.
unfoldable pub ask_pod_ip : (ℕ → Option (List ℕ)) → ℕ → ℕ → Option (List ℕ)
ask_pod_ip pod_ip zero attempt = none
ask_pod_ip pod_ip (suc left) attempt =
    let again = ask_pod_ip pod_ip left (attempt + 1) in or_again (pod_ip attempt) again

-- The address of the pod that setIdentity takes: `tries > 10` after eleven empty answers.
unfoldable pub pod_ip_of : List ℕ → (ℕ → Option (List ℕ)) → Option (List ℕ)
unfolding ask_pod_ip
pod_ip_of [] pod_ip = ask_pod_ip pod_ip 11 0
pod_ip_of (c ∷ cs) pod_ip = some (c ∷ cs)

-- The namespace is never empty.
get_namespace-ne-nil : (env : List ℕ) (file : Option (List ℕ)) → get_namespace env file ≢ []
unfolding get_namespace
get_namespace-ne-nil [] none = λ e. cc
get_namespace-ne-nil [] (some contents) = elim (trim_space contents) as (λ s. or_default s ≢ []) [
  | [] ↦ λ e. cc
  | c ∷ cs ↦ λ e. cc
]
get_namespace-ne-nil (c ∷ cs) file = λ e. cc

-- The first address that Kubernetes knows is taken, when it comes within the attempts that are left
-- and Kubernetes answers with none before.
ask_pod_ip-first :
    (pod_ip : ℕ → Option (List ℕ)) (left attempt k c : ℕ) (cs : List ℕ)
    → suc k ≤ left
    → ((i : ℕ) → suc i ≤ k → pod_ip (attempt + i) ≡ some [])
    → pod_ip (attempt + k) ≡ some (c ∷ cs)
    → ask_pod_ip pod_ip left attempt ≡ some (c ∷ cs)
unfolding ask_pod_ip
ask_pod_ip-first pod_ip zero attempt k c cs le unknown known = absurd (omega arith)
ask_pod_ip-first pod_ip (suc left) attempt zero c cs le unknown known =
    let here : attempt + 0 ≡ attempt = omega arith in
    ap (λ o. or_again o (ask_pod_ip pod_ip left (attempt + 1))) (ap pod_ip (sym here) ∙ known)
ask_pod_ip-first pod_ip (suc left) attempt (suc k) c cs le unknown known =
    let here : attempt + 0 ≡ attempt = omega arith in
    let answer : pod_ip attempt ≡ some [] = ap pod_ip (sym here) ∙ unknown 0 (omega arith) in
    let next : (i : ℕ) → attempt + 1 + i ≡ attempt + suc i = λ i. omega arith in
    ap (λ o. or_again o (ask_pod_ip pod_ip left (attempt + 1))) answer
    ∙ (ask_pod_ip-first pod_ip left (attempt + 1) k c cs (omega arith)
        (λ i lt. ap pod_ip (next i) ∙ unknown (suc i) (omega arith)) (ap pod_ip (next k) ∙ known))
