-- ===== src/Examples/Observers.antt =====
-- The observer of couchbase/observer.go at work.
use go_dcp.Prelude.{◌≤◌, ◌≡◌, ◌↔◌, ◌⊎◌, refl, true, List, [], ◌∷◌, arith, map}
use go_dcp.Models.{Item, dcp_mutation}
use go_dcp.Observer.{
  Observer, done, new_observer, set_catchup, add_mutation, persisted, closes, check_persist_seq_no,
  wait_rollback_mitigation, handle, on_mutation,
}
use go_dcp.Observer.Answers.{IsSafeAnswer}
use go_dcp.Observer.Forwarding.{handle-IsSafeAnswer}
use go_dcp.Observer.Catchup.{handle_items, sent, above, catchup_forwards_above}
use go_dcp.Observer.Waiting.{HasRelease, wait_ends_iff}
use go_dcp.Examples.Fixtures.{item_at, open_observer, snapshot_10_20}

handle-IsSafeAnswer_example :
    IsSafeAnswer (handle (persisted 15 ∷ []) open_observer (on_mutation (item_at 12)))
handle-IsSafeAnswer_example =
    handle-IsSafeAnswer (persisted 15 ∷ []) open_observer (on_mutation (item_at 12))

abbrev three_items : List Item
three_items = item_at 11 ∷ item_at 12 ∷ item_at 13 ∷ []

catchup_forwards_above_example :
    (so' : Observer) × (handle_items dcp_mutation add_mutation
        (set_catchup open_observer 11)
        three_items
      ≡ done (so', map (sent dcp_mutation open_observer snapshot_10_20) (above 11 three_items)))
unfolding new_observer
catchup_forwards_above_example =
    catchup_forwards_above dcp_mutation add_mutation snapshot_10_20 open_observer 11 three_items
      (record { mitigation_off = refl; no_window = refl; is_open = refl; snapshot = refl })
      (refl, (refl, (refl, tt))) (omega arith, (omega arith, tt))

wait_ends_iff_example :
    (((so' : Observer) × (wait_rollback_mitigation (persisted 9 ∷ closes ∷ []) open_observer 12
          ≡ done so'))
      ↔ ((check_persist_seq_no open_observer 12 ≡ true)
          ⊎ HasRelease 12 (persisted 9 ∷ closes ∷ [])))
    × ((so' : Observer)
        → wait_rollback_mitigation (persisted 9 ∷ closes ∷ []) open_observer 12 ≡ done so'
        → (check_persist_seq_no so' 12 ≡ true)
          × (open_observer.persist_seq_no ≤ so'.persist_seq_no)
          × (open_observer.closed ≡ true → so'.closed ≡ true))
wait_ends_iff_example = wait_ends_iff (persisted 9 ∷ closes ∷ []) open_observer 12
