-- ===== src/Kubernetes/Pods.antt =====
-- What the pods of a stateful set stream: kubernetes/stateful_set_membership.go with
-- stream/vbucket_discovery.go.
use go_dcp.Prelude.{
  ℕ, suc, ◌+◌, ◌-◌, ◌↔◌, ◌≡◌, ◌<◌, ◌≤◌, refl, sym, ap, subst, ◌∙◌, Option, none, some, List, [],
  ◌∷◌, ◌++◌, length, false, true, ltb, Bool, ltb→lt, All, drop, ◌==◌, arith, pos, if◌then◌else◌,
  lt→ltb,
}
use go_dcp.Strconv.{itoa, max_int}
use go_dcp.Strconv.Decimal.{IsDigit, itoa-IsDigit, atoi-itoa}
use go_dcp.Config.Types.{Dcp}
use go_dcp.Membership.{Model}
use go_dcp.Membership.Static.{Configured, model_of}
use go_dcp.Discovery.{VBucketDiscovery, get}
use go_dcp.Discovery.Ranges.{Streams, assigned_once}
use go_dcp.Kubernetes.{
  last_index, ordinal, numbered_pod, get_pod_ordinal_from_hostname, new_stateful_set_membership,
}

-- Digits hold no dash.
last_index-digits : (s : List ℕ) → All IsDigit s → last_index b'-' s ≡ none
unfolding last_index
last_index-digits [] h = refl
last_index-digits (c ∷ cs) h = rw (last_index-digits cs h.1) (ground arith)

last_index-append :
    (s t : List ℕ) → All IsDigit t → last_index b'-' (s ++ (b'-' ∷ t)) ≡ some (length s)
unfolding last_index
last_index-append [] t h = rw (last_index-digits t h) refl
last_index-append (c ∷ cs) t h = rw (last_index-append cs t h) refl

drop-suc : (c : ℕ) (s : List ℕ) (n : ℕ) → drop (suc n + 1) (c ∷ s) ≡ drop (n + 1) s
drop-suc c s n = let e : suc n + 1 ≡ suc (n + 1) = omega arith in ap (λ m. drop m (c ∷ s)) e

drop-append : (s t : List ℕ) (c : ℕ) → drop (length s + 1) (s ++ (c ∷ t)) ≡ t
drop-append [] t c = refl
drop-append (d ∷ ds) t c = drop-suc d (ds ++ (c ∷ t)) (length ds) ∙ drop-append ds t c

-- The name of a pod's host: that of the set, a dash, and the pod's number.
abbrev pub pod_name : List ℕ → ℕ → List ℕ
pod_name name k = name ++ (b'-' ∷ itoa k)

get_pod_ordinal_from_hostname_lem :
    (name : List ℕ) (k : ℕ)
    → k ≤ max_int
    → get_pod_ordinal_from_hostname (some (pod_name name k)) ≡ some (pos k)
unfolding get_pod_ordinal_from_hostname
get_pod_ordinal_from_hostname_lem name k small =
    rw (last_index-append name (itoa k) (itoa-IsDigit k))
      (rw (drop-append name (itoa k) b'-') (ap ordinal (atoi-itoa k small)))

numbered_pod_lem :
    (config : Dcp) (n k : ℕ)
    → config.dcp.group.membership.total_members ≡ pos n
    → numbered_pod config (pos (k + 1)) ≡ (
        if ltb k n
        then some (record { member_number = pos (k + 1); total_members = pos n })
        else none)
numbered_pod_lem config n k total = rw total (ground arith)

-- The pod with the number k of a set of n is the member k + 1, and no pod beyond the set starts.
pub new_stateful_set_membership_lem :
    (config : Dcp) (name : List ℕ) (n k : ℕ)
    → config.dcp.group.membership.total_members ≡ pos n
    → k < max_int
    → new_stateful_set_membership (some (pod_name name k)) config ≡ (
        if ltb k n
        then some (record { member_number = pos (k + 1); total_members = pos n })
        else none)
unfolding new_stateful_set_membership
new_stateful_set_membership_lem config name n k total small =
    let last : (k == max_int) ≡ false = ground arith in
    rw (get_pod_ordinal_from_hostname_lem name k (omega arith), last)
      (numbered_pod_lem config n k total)

abbrev pub Handles : VBucketDiscovery → Option Model → ℕ → Type 0
Handles s none vb = ⊥
Handles s (some m) vb = Streams (get s m) vb

-- A pod that starts, and for whose Model Get answers with a range that holds `vb`.
abbrev pub Takes : VBucketDiscovery → Option Configured → ℕ → Type 0
Takes s none vb = ⊥
Takes s (some i) vb = Handles s (model_of i.member_number i.total_members) vb

Takes-if :
    (s : VBucketDiscovery) (vb : ℕ) (b : Bool) (i : Configured)
    → Takes s (if b then some i else none) vb ↔ ((b ≡ true) × Takes s (some i) vb)
Takes-if s vb true i = (λ h. (refl, h), λ h. h.1)
Takes-if s vb false i = (λ h. elim h [ ], λ h. absurd (ground arith))

-- The pods of a stateful set whose size is configured, of which there are no more than vBuckets,
-- stream every vBucket once: one of the pods that the set numbers from 0 has the vBucket in its
-- range, and no other pod that starts has it, whatever its number.
pub pods_stream_once :
    (config : Dcp) (name : List ℕ) (n : ℕ) (s : VBucketDiscovery) (vb : ℕ)
    → config.dcp.group.membership.total_members ≡ pos n
    → 0 < n
    → n ≤ s.v_bucket_number
    → s.v_bucket_number ≤ 65536
    → vb < s.v_bucket_number
    → (k : ℕ) × (k < n)
      × Takes s (new_stateful_set_membership (some (pod_name name k)) config) vb
      × ((l : ℕ)
          → l < max_int
          → Takes s (new_stateful_set_membership (some (pod_name name l)) config) vb
          → l ≡ k)
pods_stream_once config name n s vb total some_pod few small inside =
    place (assigned_once s n vb some_pod few small inside)
  where
    at_number : ℕ → Model
    at_number m = record { member_number = m; total_members = n }

    started :
        (k : ℕ)
        → k < max_int
        → Takes s (new_stateful_set_membership (some (pod_name name k)) config) vb
          ↔ ((k < n) × Streams (get s (at_number (k + 1))) vb)
    started k fits = rw (new_stateful_set_membership_lem config name n k total fits) (
      λ takes. let (e, h) = (Takes-if s vb (ltb k n) _).0 takes in (ltb→lt k n e, h),
      λ h. (Takes-if s vb (ltb k n) _).1 (lt→ltb k n h.0, h.1),
    )

    place :
        (m : ℕ) × (0 < m)
          × (m ≤ n)
          × Streams (get s (at_number m)) vb
          × ((l : ℕ) → Streams (get s (at_number l)) vb → l ≡ m)
        → (k : ℕ) × (k < n)
          × Takes s (new_stateful_set_membership (some (pod_name name k)) config) vb
          × ((l : ℕ)
              → l < max_int
              → Takes s (new_stateful_set_membership (some (pod_name name l)) config) vb
              → l ≡ k)
    place (m, positive, le, streams, once) =
        let back : m - 1 + 1 ≡ m = omega arith in
        (
          m - 1,
          omega arith,
          (started (m - 1) (omega arith)).1
              (omega arith, subst (λ k. Streams (get s (at_number k)) vb) (sym back) streams),
          λ l fits takes.
              let same : l + 1 ≡ m = once (l + 1) ((started l fits).0 takes).1 in
              omega (arith, same),
        )
