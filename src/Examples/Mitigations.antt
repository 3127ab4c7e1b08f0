-- ===== src/Examples/Mitigations.antt =====
-- Rollback mitigation over three replicas, and versions.
use go_dcp.Prelude.{
  ℕ, ◌≡◌, ◌⊎◌, refl, Bool, true, false, not, ◌||◌, some, List, [], ◌∷◌, nat_comparable, All, ◌==◌,
}
use go_dcp.Wrapper.{create, store, load}
use go_dcp.Models.{PersistSeqNo}
use go_dcp.Mitigation.{
  Replica, RollbackMitigation, ObserveVbResult, observed, observe, new_rollback_mitigation,
  take_answer,
}
use go_dcp.Mitigation.Dispatched.{IsPersisted, observe-IsPersisted}
use go_dcp.Examples.Fixtures.{nat_table}

abbrev replica_at : ℕ → Bool → Replica
replica_at n absent = record { vb_uuid = 77; seq_no = n; absent = absent }

abbrev three_replicas : List Replica
three_replicas = replica_at 3 true ∷ replica_at 20 false ∷ replica_at 12 false ∷ []

abbrev watching : RollbackMitigation
watching = record (new_rollback_mitigation (3 ∷ [])) {
  persisted_seq_nos = store (create (List Replica) 1024) 3 three_replicas;
  active_group_id = 1;
}

abbrev answer_15 : ObserveVbResult
answer_15 = record { vb_uuid = 77; persist_seq_no = 15 }

abbrev told_state : RollbackMitigation
told_state = (take_answer watching 3 2 three_replicas answer_15 (some (replica_at 12 false))).0

abbrev told_15 : List PersistSeqNo
told_15 = record { vb_id = 3; seq_no = 15 } ∷ []

observe-IsPersisted_example :
    All (IsPersisted told_state) told_15
    × (((watching.closed || not (watching.active_group_id == 1)) ≡ false)
        ⊎ ((told_state ≡ watching) × (told_15 ≡ [])))
unfolding observe new_rollback_mitigation load store
observe-IsPersisted_example =
    observe-IsPersisted watching told_state 3 2 1 77 (observed answer_15) told_15 refl
