-- ===== src/Observer/Waiting.antt =====
-- The wait for rollback mitigation in couchbase/observer.go: when it ends, and what it has waited for.
use go_dcp.Prelude.{
  ℕ, ◌≤◌, ◌<◌, ◌≡◌, ◌∙◌, sym, subst, ◌↔◌, ◌⊎◌, inl, inr, true, false, List, [], ◌∷◌, arith,
  Bool-cases,
}
use go_dcp.Observer.Outcomes.{done, waiting}
use go_dcp.Observer.Defs.{
  Observer, Poke, persisted, closes, catches_up, gets_vb_uuid, poke, check_persist_seq_no,
  wait_rollback_mitigation,
}

-- What a poll in between can change: the persisted sequence number only grows, and a closed
-- observer stays closed. The snapshot and the settings stay.
pub record Later (so so' : Observer) : Type 0 where
  pub persist_grows : so.persist_seq_no ≤ so'.persist_seq_no
  pub stays_closed : so.closed ≡ true → so'.closed ≡ true
  pub same_snapshot : so'.current_snapshot ≡ so.current_snapshot
  pub same_mitigation : so'.mitigation_disabled ≡ so.mitigation_disabled
  pub same_latest : so'.latest_seq_no ≡ so.latest_seq_no

pub Later-refl : (so : Observer) → Later so so
Later-refl so = ground arith

pub Later-trans : {a b c : Observer} → Later a b → Later b c → Later a c
Later-trans p q = ground arith

pub Later-poke : (p : Poke) (so : Observer) → Later so (poke p so)
unfolding poke
Later-poke p so = ground arith

wait_now :
    (pokes : List Poke) (so : Observer) (seq_no : ℕ)
    → check_persist_seq_no so seq_no ≡ true
    → wait_rollback_mitigation pokes so seq_no ≡ done so
unfolding wait_rollback_mitigation
wait_now [] so seq_no e = rw e
wait_now (p ∷ pokes) so seq_no e = rw e

wait_more :
    (p : Poke) (pokes : List Poke) (so : Observer) (seq_no : ℕ)
    → check_persist_seq_no so seq_no ≡ false
    → wait_rollback_mitigation (p ∷ pokes) so seq_no
      ≡ wait_rollback_mitigation pokes (poke p so) seq_no
unfolding wait_rollback_mitigation
wait_more p pokes so seq_no e = rw e

wait_over :
    (so : Observer) (seq_no : ℕ)
    → check_persist_seq_no so seq_no ≡ false
    → wait_rollback_mitigation [] so seq_no ≡ waiting
unfolding wait_rollback_mitigation
wait_over so seq_no e = rw e

passed :
    (pokes : List Poke) (so : Observer) (seq_no : ℕ) {so' : Observer}
    → wait_rollback_mitigation pokes so seq_no ≡ done so'
    → check_persist_seq_no so seq_no ≡ true
    → Later so so' × (check_persist_seq_no so' seq_no ≡ true)
passed pokes so seq_no {so'} h e =
    let same : so ≡ so' = cc (wait_now pokes so seq_no e) in
    subst (λ x. Later so x × (check_persist_seq_no x seq_no ≡ true)) same (Later-refl so, e)

-- The wait, if it ends, ends with the number persisted or the observer closed.
pub wait_done :
    (pokes : List Poke) (so : Observer) (seq_no : ℕ) {so' : Observer}
    → wait_rollback_mitigation pokes so seq_no ≡ done so'
    → Later so so' × (check_persist_seq_no so' seq_no ≡ true)
wait_done [] so seq_no h = elim (Bool-cases (check_persist_seq_no so seq_no)) [
  | inl e ↦ passed [] so seq_no h e
  | inr e ↦ cc (wait_over so seq_no e)
]
wait_done (p ∷ pokes) so seq_no h = elim (Bool-cases (check_persist_seq_no so seq_no)) [
  | inl e ↦ passed (p ∷ pokes) so seq_no h e
  | inr e ↦
      let (later, ok) =
        wait_done pokes (poke p so) seq_no (sym (wait_more p pokes so seq_no e) ∙ h) in
      (Later-trans (Later-poke p so) later, ok)
]

-- A poke that lets a waiting event pass: a persisted number that reaches it, or the close.
abbrev pub Releases : ℕ → Poke → Type 0
Releases seq_no (persisted q) = (seq_no ≤ q) × (0 < q)
Releases seq_no closes = Unit
Releases seq_no (catches_up q) = ⊥
Releases seq_no (gets_vb_uuid q) = ⊥

abbrev pub HasRelease : ℕ → List Poke → Type 0
HasRelease seq_no [] = ⊥
HasRelease seq_no (p ∷ pokes) = Releases seq_no p ⊎ HasRelease seq_no pokes

check-poke :
    (p : Poke) (so : Observer) (seq_no : ℕ)
    → check_persist_seq_no so seq_no ≡ false
    → (check_persist_seq_no (poke p so) seq_no ≡ true) ↔ Releases seq_no p
unfolding poke check_persist_seq_no
check-poke (persisted q) so seq_no e = ground arith
check-poke closes so seq_no e = ground arith
check-poke (catches_up q) so seq_no e = ground arith
check-poke (gets_vb_uuid q) so seq_no e = ground arith

wait_passes :
    (pokes : List Poke) (so : Observer) (seq_no : ℕ)
    → HasRelease seq_no pokes
    → (so' : Observer) × (wait_rollback_mitigation pokes so seq_no ≡ done so')
wait_passes [] so seq_no h = elim h [ ]
wait_passes (p ∷ pokes) so seq_no h = elim (Bool-cases (check_persist_seq_no so seq_no)) [
  | inl e ↦ (so, wait_now (p ∷ pokes) so seq_no e)
  | inr e ↦ elim h [
    | inl now ↦ (
      poke p so,
      wait_more p pokes so seq_no e
          ∙ wait_now pokes (poke p so) seq_no ((check-poke p so seq_no e).1 now),
    )
    | inr later ↦
        let (so', done_later) = wait_passes pokes (poke p so) seq_no later in
        (so', wait_more p pokes so seq_no e ∙ done_later)
  ]
]

wait_needs :
    (pokes : List Poke) (so : Observer) (seq_no : ℕ) {so' : Observer}
    → wait_rollback_mitigation pokes so seq_no ≡ done so'
    → check_persist_seq_no so seq_no ≡ false
    → HasRelease seq_no pokes
wait_needs [] so seq_no h e = cc (wait_over so seq_no e)
wait_needs (p ∷ pokes) so seq_no h e = elim (Bool-cases (check_persist_seq_no (poke p so) seq_no)) [
  | inl now ↦ inl ((check-poke p so seq_no e).0 now)
  | inr still ↦
      inr (wait_needs pokes (poke p so) seq_no (sym (wait_more p pokes so seq_no e) ∙ h) still)
]

-- The wait for a sequence number ends exactly when the number is persisted or the observer closed
-- at the start, or one of the pokes during the wait reports a non-zero persisted number that
-- reaches it, or closes the observer. However it ends, the number is persisted or the observer
-- closed then, the persisted number has not fallen, and an observer that was closed has stayed so.
pub wait_ends_iff :
    (pokes : List Poke) (so : Observer) (seq_no : ℕ)
    → (((so' : Observer) × (wait_rollback_mitigation pokes so seq_no ≡ done so'))
        ↔ ((check_persist_seq_no so seq_no ≡ true) ⊎ HasRelease seq_no pokes))
      × ((so' : Observer)
          → wait_rollback_mitigation pokes so seq_no ≡ done so'
          → (check_persist_seq_no so' seq_no ≡ true)
            × (so.persist_seq_no ≤ so'.persist_seq_no)
            × (so.closed ≡ true → so'.closed ≡ true))
wait_ends_iff pokes so seq_no = ((needs, passes), ends)
  where
    needs :
        (so' : Observer) × (wait_rollback_mitigation pokes so seq_no ≡ done so')
        → (check_persist_seq_no so seq_no ≡ true) ⊎ HasRelease seq_no pokes
    needs (so', h) = elim (Bool-cases (check_persist_seq_no so seq_no)) [
      | inl e ↦ inl e
      | inr e ↦ inr (wait_needs pokes so seq_no h e)
    ]

    passes :
        (check_persist_seq_no so seq_no ≡ true) ⊎ HasRelease seq_no pokes
        → (so' : Observer) × (wait_rollback_mitigation pokes so seq_no ≡ done so')
    passes (inl e) = (so, wait_now pokes so seq_no e)
    passes (inr r) = wait_passes pokes so seq_no r

    ends :
        (so' : Observer)
        → wait_rollback_mitigation pokes so seq_no ≡ done so'
        → (check_persist_seq_no so' seq_no ≡ true)
          × (so.persist_seq_no ≤ so'.persist_seq_no)
          × (so.closed ≡ true → so'.closed ≡ true)
    ends so' h =
        let (later, ok) = wait_done pokes so seq_no h in
        (ok, later.persist_grows, later.stays_closed)
