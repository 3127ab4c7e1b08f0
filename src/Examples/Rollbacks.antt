-- ===== src/Examples/Rollbacks.antt =====
-- OpenStream of couchbase/client.go where the server asks to roll back, and the merge of the
-- highest sequence numbers of the vBuckets.
use go_dcp.Prelude.{
  ℕ, ◌≡◌, refl, true, Option, some, List, [], ◌∷◌, arith, map, nat_comparable, if◌then◌else◌, ◌==◌,
}
use go_dcp.Wrapper.{ConcurrentSwissMap, create, store}
use go_dcp.Models.{Item, dcp_mutation, dcp_snapshot_marker}
use go_dcp.Observer.{Observer, done, add_mutation, snapshot_marker, new_observer}
use go_dcp.Observer.Catchup.{handle_items, sent, above}
use go_dcp.Rollback.{
  FailoverEntry, VbSeqNoEntry, OpenRequest, Answer, opened, rollback_error, open_request,
  rollback_request, client_open_stream,
}
use go_dcp.Rollback.Resumed.{IsFirstNotBehind, reopened, client_open_stream-rollback}
use go_dcp.Examples.Fixtures.{nat_table, item_at, offset_at, snapshot_10_20, open_observer}

abbrev new_history : FailoverEntry
new_history = record { vb_uuid = 91; seq_no = 9 }

abbrev old_history : FailoverEntry
old_history = record { vb_uuid = 77; seq_no = 4 }

abbrev histories : List FailoverEntry
histories = new_history ∷ old_history ∷ []

-- The server opens only what starts at 6, and asks to roll back to there.
abbrev agent_at_6 : OpenRequest → Answer
agent_at_6 r = if r.start_seq_no == 6 then opened histories else rollback_error 6

abbrev logs_of : ℕ → Option (List FailoverEntry)
logs_of vb_id = some histories

abbrev items_from_7 : List Item
items_from_7 = item_at 11 ∷ item_at 12 ∷ item_at 14 ∷ []

client_open_stream-rollback_example :
    IsFirstNotBehind 6 (rollback_request 3 6 100 histories).vb_uuid histories
    × ((opened_so marked_so last_so : Observer) × (client_open_stream agent_at_6 logs_of 3
            (offset_at 12)
            open_observer
          ≡ some (
            true,
            opened_so,
            rollback_request 3 6 100 histories ∷ open_request 3 (offset_at 12) ∷ [],
          ))
        × (snapshot_marker [] opened_so snapshot_10_20
            ≡ done (marked_so, dcp_snapshot_marker snapshot_10_20 ∷ []))
        × (handle_items dcp_mutation add_mutation marked_so items_from_7
            ≡ done (
              last_so,
              map
                  (sent dcp_mutation
                    (reopened open_observer new_history snapshot_10_20)
                    snapshot_10_20)
                  (above 12 items_from_7),
            )))
unfolding new_observer
client_open_stream-rollback_example =
    client_open_stream-rollback agent_at_6 logs_of 3 (offset_at 12) open_observer 6 histories
      (old_history ∷ []) new_history refl refl refl dcp_mutation add_mutation snapshot_10_20
      items_from_7 refl refl refl (refl, (refl, (refl, tt))) (omega arith, (omega arith, tt))

abbrev entries : List VbSeqNoEntry
entries =
    record { vb_id = 3; seq_no = 40 }
    ∷ record { vb_id = 4; seq_no = 8 }
    ∷ record { vb_id = 3; seq_no = 35 }
    ∷ []

abbrev known_12 : ConcurrentSwissMap ℕ ℕ
known_12 = store (create ℕ 1024) 3 12
