-- ===== src/Observer/Answers.antt =====
-- What a handler of couchbase/observer.go may answer, and the gate that it passes.
use go_dcp.Prelude.{
  ℕ, ◌≤◌, ◌≡◌, refl, ◌∙◌, sym, subst, inl, inr, Bool, true, false, Option, none, some, List, arith,
  All, Bool-cases, if◌then◌else◌,
}
use go_dcp.Models.{
  SnapshotMarker, Offset, Event, dcp_snapshot_marker, dcp_mutation, dcp_deletion, dcp_expiration,
  dcp_collection_creation, dcp_collection_deletion, dcp_collection_flush,
  dcp_collection_modification, dcp_scope_creation, dcp_scope_deletion, dcp_seq_no_advanced,
  dcp_oso_snapshot,
}
use go_dcp.Observer.Outcomes.{Outcome, done, waiting, not_in_snapshot, ◌>>=◌}
use go_dcp.Observer.Defs.{
  Observer, Poke, wait_rollback_mitigation, check_persist_seq_no, pass_catchup, can_forward,
  send_or_skip, is_in_snapshot_marker, offset_of,
}
use go_dcp.Observer.Handlers.{Handled}
use go_dcp.Observer.Waiting.{Later, Later-refl, wait_done}

-- The offset of an event that has one.
abbrev pub offset_in : Event → Option Offset
offset_in (dcp_snapshot_marker e) = none
offset_in (dcp_mutation e) = some e.offset
offset_in (dcp_deletion e) = some e.offset
offset_in (dcp_expiration e) = some e.offset
offset_in (dcp_collection_creation e) = some e.offset
offset_in (dcp_collection_deletion e) = some e.offset
offset_in (dcp_collection_flush e) = some e.offset
offset_in (dcp_collection_modification e) = some e.offset
offset_in (dcp_scope_creation e) = some e.offset
offset_in (dcp_scope_deletion e) = some e.offset
offset_in (dcp_seq_no_advanced e) = some e.offset
offset_in (dcp_oso_snapshot e) = none

-- The offset lies in the observer's snapshot, and is persisted if rollback mitigation is on.
abbrev pub IsSafe : Observer → Option Offset → Type 0
IsSafe so none = Unit
IsSafe so (some o) =
    (o.snapshot.start_seq_no ≤ o.seq_no)
    × (o.seq_no ≤ o.snapshot.end_seq_no)
    × (so.current_snapshot ≡ some o.snapshot)
    × (o.vb_uuid ≡ so.vb_uuid)
    × (o.latest_seq_no ≡ so.latest_seq_no)
    × (so.mitigation_disabled ≡ false → o.seq_no ≤ so.persist_seq_no)

-- All that a handler may answer: the listener is called only by an open observer, and with safe
-- offsets.
abbrev pub IsSafeAnswer : Handled → Type 0
IsSafeAnswer waiting = Unit
IsSafeAnswer not_in_snapshot = Unit
IsSafeAnswer (done (so, out)) = All (λ e. (so.closed ≡ false) × IsSafe so (offset_in e)) out

-- The gate of canForward, once it is passed.
pub record Gate (so so' : Observer) (seq_no : ℕ) : Type 0 where
  pub later : Later so so'
  pub reached : so.mitigation_disabled ≡ false → so'.closed ≡ false → seq_no ≤ so'.persist_seq_no

Gate-pass_catchup :
    {so : Observer} (so' : Observer) (seq_no : ℕ) (is_control : Bool)
    → Gate so so' seq_no
    → Gate so (pass_catchup so' seq_no is_control).1 seq_no
unfolding pass_catchup
Gate-pass_catchup so' seq_no is_control g = ground arith

wait-Gate :
    (pokes : List Poke) (so : Observer) (seq_no : ℕ) {so' : Observer}
    → wait_rollback_mitigation pokes so seq_no ≡ done so'
    → Gate so so' seq_no
unfolding check_persist_seq_no
wait-Gate pokes so seq_no h =
    let (later, ok) = wait_done pokes so seq_no h in
    record { later = later; reached = λ on open_. ground arith }

done-injective {ℓ} : {A : Type ℓ} {a b : A} → done a ≡ done b → a ≡ b
done-injective h = cc

done-bind {ℓ κ} :
    {A : Type ℓ} {B : Type κ} (m : Outcome A) (f : A → Outcome B) {b : B}
    → (m >>= f) ≡ done b
    → (a : A) × (m ≡ done a) × (f a ≡ done b)
done-bind (done a) f h = (a, refl, h)
done-bind waiting f h = cc
done-bind not_in_snapshot f h = cc

opened :
    (pokes : List Poke) (so : Observer) (seq_no : ℕ) (so' : Observer) (off : Bool)
    → so.mitigation_disabled ≡ off
    → (if off then done so else wait_rollback_mitigation pokes so seq_no) ≡ done so'
    → Gate so so' seq_no
opened pokes so seq_no so' true e h =
    subst (λ x. Gate so x seq_no) (done-injective h)
      (record { later = Later-refl so; reached = λ on. cc })
opened pokes so seq_no so' false e h = wait-Gate pokes so seq_no h

-- canForward returns only past the wait, and leaves the catch-up flag alone at most.
pub can_forward-Gate :
    (pokes : List Poke) (so : Observer) (seq_no : ℕ) (is_control : Bool) {gate : Bool × Observer}
    → can_forward pokes so seq_no is_control ≡ done gate
    → Gate so gate.1 seq_no
unfolding can_forward
can_forward-Gate pokes so seq_no is_control {gate} h =
    let (so', waited, passed) = done-bind _ _ h in
    let same : pass_catchup so' seq_no is_control ≡ gate = done-injective passed in
    subst (λ (g : Bool × Observer). Gate so g.1 seq_no) same
      (Gate-pass_catchup so' seq_no is_control
        (opened pokes so seq_no so' so.mitigation_disabled refl waited))

pub safe-bind {ℓ} :
    {A : Type ℓ} (m : Outcome A) (f : A → Handled)
    → ((a : A) → m ≡ done a → IsSafeAnswer (f a))
    → IsSafeAnswer (m >>= f)
safe-bind (done a) f h = h a refl
safe-bind waiting f h = tt
safe-bind not_in_snapshot f h = tt

pub safe-if :
    (b : Bool) (x y : Handled)
    → (b ≡ true → IsSafeAnswer x)
    → (b ≡ false → IsSafeAnswer y)
    → IsSafeAnswer (if b then x else y)
safe-if true x y hx hy = hx refl
safe-if false x y hx hy = hy refl

pub safe-send :
    (so so' : Observer) (e : Event)
    → (so.closed ≡ false → (so'.closed ≡ false) × IsSafe so' (offset_in e))
    → IsSafeAnswer (done (so', send_or_skip so e))
unfolding send_or_skip
safe-send so so' e h = elim (Bool-cases so.closed) [
  | inl closed ↦ rw closed tt
  | inr open_ ↦ rw open_ ((h open_), tt)
]

in_snapshot :
    (o : Option SnapshotMarker) (seq_no : ℕ) {s : SnapshotMarker}
    → is_in_snapshot_marker o seq_no ≡ done s
    → (o ≡ some s) × (s.start_seq_no ≤ seq_no) × (seq_no ≤ s.end_seq_no)
unfolding is_in_snapshot_marker
in_snapshot none seq_no h = cc
in_snapshot (some t) seq_no h = ground arith

pub IsSafe-offset :
    {so : Observer} (so' : Observer) (s : SnapshotMarker) (seq_no : ℕ)
    → Gate so so' seq_no
    → so'.closed ≡ false
    → is_in_snapshot_marker so'.current_snapshot seq_no ≡ done s
    → IsSafe so' (some (offset_of so' s seq_no))
IsSafe-offset so' s seq_no g open_ inside =
    let (here, lo, hi) = in_snapshot so'.current_snapshot seq_no inside in
    (lo, hi, here, refl, refl, λ on. g.reached (sym g.later.same_mitigation ∙ on) open_)
