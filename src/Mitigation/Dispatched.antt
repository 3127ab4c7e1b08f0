-- ===== src/Mitigation/Dispatched.antt =====
-- What couchbase/rollback_mitigation.go tells the observers.
use go_dcp.Prelude.{
  false, ltb→lt, ◌⊎◌, ℕ, ◌≡◌, sym, subst, ◌∙◌, inl, inr, Bool, not, ◌||◌, Option, none, some, List,
  [], ◌∷◌, nat_comparable, get_elem?, length, arith, All, ltb, ◌==◌, Bool-cases,
}
use go_dcp.Wrapper.{CsMap, load}
use go_dcp.Models.{PersistSeqNo}
use go_dcp.Mitigation.Rounds.{take_answer, take_uuid, answered, observe}
use go_dcp.Mitigation.Defs.{
  Replica, ObserveVbResult, Observed, observed, unambiguous_timeout, temporary_failure,
  other_failure, RollbackMitigation, get_min_seq_no, min_of, or_nil, is_outdated,
}
use go_dcp.Mitigation.Least.{Agree, IsBelow, IsPresent, min_of-safe}

module _ ⦃cs : CsMap ℕ⦄ where
  -- In this state, a number is zero or persisted by every replica that counts.
  abbrev pub IsPersisted : RollbackMitigation → PersistSeqNo → Type 0
  IsPersisted r p =
      (p.seq_no ≡ 0)
      ⊎ ((u : ℕ) × Agree u (or_nil (load r.persisted_seq_nos p.vb_id))
          × IsBelow p.seq_no (or_nil (load r.persisted_seq_nos p.vb_id))
          × IsPresent (or_nil (load r.persisted_seq_nos p.vb_id)))

  get_min_seq_no-IsPersisted :
      (r : RollbackMitigation) (vb_id : ℕ)
      → IsPersisted r (record { vb_id = vb_id; seq_no = get_min_seq_no r vb_id })
  unfolding get_min_seq_no
  get_min_seq_no-IsPersisted r vb_id =
      let rs = or_nil (load r.persisted_seq_nos vb_id) in
      elim (Bool-cases (ltb 0 (min_of rs))) [
        | inl some_number ↦ inr (min_of-safe rs (ltb→lt 0 (min_of rs) some_number))
        | inr zero_number ↦ inl (ground arith)
      ]

  take_uuid-persisted :
      (vb_id vb_uuid : ℕ) (result : ObserveVbResult) (is_there : Bool) (r : RollbackMitigation)
      → (take_uuid vb_id vb_uuid result is_there r).persisted_seq_nos ≡ r.persisted_seq_nos
  take_uuid-persisted vb_id vb_uuid result is_there r = ground arith

  take_answer-IsPersisted :
      (r : RollbackMitigation) (vb_id replica : ℕ) (replicas : List Replica)
      → (result : ObserveVbResult) (known : Option Replica)
      → All
          (IsPersisted (take_answer r vb_id replica replicas result known).0)
          (take_answer r vb_id replica replicas result known).1
  take_answer-IsPersisted r vb_id replica replicas result none = tt
  take_answer-IsPersisted r vb_id replica replicas result (some known) =
      elim (Bool-cases (is_outdated known result)) [
        | inl news ↦ rw news (get_min_seq_no-IsPersisted _ vb_id, tt)
        | inr known_already ↦ rw known_already tt
      ]

  -- Only the persisted numbers matter to what is told.
  IsPersisted-same :
      (r r' : RollbackMitigation) (told : List PersistSeqNo)
      → r'.persisted_seq_nos ≡ r.persisted_seq_nos
      → All (IsPersisted r) told
      → All (IsPersisted r') told
  IsPersisted-same r r' [] same h = tt
  IsPersisted-same r r' (p ∷ told) same h = (
    subst
        (λ m.
          (p.seq_no ≡ 0)
          ⊎ ((u : ℕ) × Agree u (or_nil (load m p.vb_id))
              × IsBelow p.seq_no (or_nil (load m p.vb_id))
              × IsPresent (or_nil (load m p.vb_id))))
        (sym same) h.0,
    IsPersisted-same r r' told same h.1,
  )

  answered-IsPersisted :
      (r r' : RollbackMitigation) (vb_id replica vb_uuid : ℕ) (answer : Observed)
      → (told : List PersistSeqNo) → answered r vb_id replica vb_uuid answer ≡ some (r', told)
      → All (IsPersisted r') told
  answered-IsPersisted r r' vb_id replica vb_uuid (observed result) told h =
      let replicas = or_nil (load r.persisted_seq_nos vb_id) in
      let t = take_answer r vb_id replica replicas result (get_elem? replicas replica) in
      let taken = take_uuid vb_id vb_uuid result (ltb replica (length replicas)) t.0 in
      let all =
        IsPersisted-same t.0 taken t.1
          (take_uuid-persisted vb_id vb_uuid result (ltb replica (length replicas)) t.0)
          (take_answer-IsPersisted r vb_id replica replicas result (get_elem? replicas replica)) in
      let state : taken ≡ r' = cc in
      let said : t.1 ≡ told = cc in
      subst (λ s. All (IsPersisted s) told) state (subst (λ l. All (IsPersisted taken) l) said all)
  answered-IsPersisted r r' vb_id replica vb_uuid unambiguous_timeout told h =
      let said : [] ≡ told = cc in subst (λ l. All (IsPersisted r') l) said tt
  answered-IsPersisted r r' vb_id replica vb_uuid temporary_failure told h =
      let said : [] ≡ told = cc in subst (λ l. All (IsPersisted r') l) said tt
  answered-IsPersisted r r' vb_id replica vb_uuid other_failure told h = absurd (ground arith)

  -- Every number that an observation tells the observers is zero, or it is persisted, in the state
  -- that the observation leaves, by every replica of the vBucket that is not absent, and these
  -- have one history. A closed rollback mitigation, and one that has been configured anew since
  -- the observation began, tells them nothing and changes nothing.
  pub observe-IsPersisted :
      (r r' : RollbackMitigation) (vb_id replica group_id vb_uuid : ℕ) (answer : Observed)
      → (told : List PersistSeqNo)
      → observe r vb_id replica group_id vb_uuid answer ≡ some (r', told)
      → All (IsPersisted r') told
        × (((r.closed || not (r.active_group_id == group_id)) ≡ false) ⊎ ((r' ≡ r) × (told ≡ [])))
  unfolding observe
  observe-IsPersisted r r' vb_id replica group_id vb_uuid answer told h =
      elim (Bool-cases (r.closed || not (r.active_group_id == group_id))) [
        | inl over ↦
            let nothing : RollbackMitigation × List PersistSeqNo = (r, []) in
            let quiet : some nothing ≡ some (r', told) = sym (rw over) ∙ h in
            let state : r ≡ r' = cc in
            let said : [] ≡ told = cc in
            (subst (λ l. All (IsPersisted r') l) said tt, inr (sym state, sym said))
        | inr running ↦ (
          answered-IsPersisted r r' vb_id replica vb_uuid answer told (sym (rw running) ∙ h),
          inl running,
        )
      ]
