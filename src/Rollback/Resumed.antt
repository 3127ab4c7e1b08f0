-- ===== src/Rollback/Resumed.antt =====
-- What an observer is sent after OpenStream of couchbase/client.go had to roll back.
use go_dcp.Prelude.{
  ℕ, ◌≤◌, ◌<◌, ◌≡◌, refl, ◌⊎◌, inl, inr, Bool, true, false, Option, none, some, List, [], ◌∷◌,
  arith, All, leb, leb→le, leb→le_false, map, if◌then◌else◌,
}
use go_dcp.Models.{Offset, Item, SnapshotMarker, InternalItem, Event, dcp_snapshot_marker}
use go_dcp.Observer.{
  Observer, ObserverMetric, done, within, set_vb_uuid, set_catchup, snapshot_marker,
}
use go_dcp.Observer.Catchup.{handle_items, sent, above, InOrder, catchup_forwards_above}
use go_dcp.Rollback.Defs.{
  FailoverEntry, OpenRequest, Answer, opened, rollback_error, target_uuid, open_request,
  rollback_request, client_open_stream,
}

-- The entry of a fail-over log that is used for a rollback: the first one that does not begin
-- behind the point of the rollback.
abbrev pub IsFirstNotBehind : ℕ → ℕ → List FailoverEntry → Type 0
IsFirstNotBehind seq_no uuid [] = uuid ≡ 0
IsFirstNotBehind seq_no uuid (log ∷ logs) =
    ((log.seq_no ≤ seq_no) × (uuid ≡ log.vb_uuid))
    ⊎ ((seq_no < log.seq_no) × IsFirstNotBehind seq_no uuid logs)

abbrev chosen : ℕ → FailoverEntry → List FailoverEntry → Bool → ℕ
chosen seq_no log logs reached = if reached then log.vb_uuid else target_uuid seq_no logs

chosen-IsFirstNotBehind :
    (seq_no : ℕ) (log : FailoverEntry) (logs : List FailoverEntry) (reached : Bool)
    → leb log.seq_no seq_no ≡ reached
    → IsFirstNotBehind seq_no (target_uuid seq_no logs) logs
    → IsFirstNotBehind seq_no (chosen seq_no log logs reached) (log ∷ logs)
chosen-IsFirstNotBehind seq_no log logs true reached later =
    inl (leb→le log.seq_no seq_no reached, refl)
chosen-IsFirstNotBehind seq_no log logs false behind later =
    inr (omega (arith, leb→le_false log.seq_no seq_no behind), later)

target_uuid-IsFirstNotBehind :
    (seq_no : ℕ) (logs : List FailoverEntry)
    → IsFirstNotBehind seq_no (target_uuid seq_no logs) logs
unfolding target_uuid
target_uuid-IsFirstNotBehind seq_no [] = refl
target_uuid-IsFirstNotBehind seq_no (log ∷ logs) =
    chosen-IsFirstNotBehind seq_no log logs (leb log.seq_no seq_no) refl
      (target_uuid-IsFirstNotBehind seq_no logs)

marks :
    (so : Observer) (s : SnapshotMarker)
    → so.mitigation_disabled ≡ true
    → so.closed ≡ false
    → snapshot_marker [] so s
      ≡ done (record so { current_snapshot = some s }, dcp_snapshot_marker s ∷ [])
unfolding snapshot_marker
marks so s no_mitigation is_open = ground arith

abbrev pub reopened : Observer → FailoverEntry → SnapshotMarker → Observer
reopened so log s = record (set_vb_uuid so log.vb_uuid) { current_snapshot = some s }

-- When the server asks to roll back to an earlier number and then opens the stream, the second request
-- starts at that number, in the history of the first entry of the fail-over log that does not
-- begin behind it, and the stream is open. An observer that is open, without rollback mitigation
-- and skip window, then forwards the marker of a snapshot; of the items that follow with
-- increasing sequence numbers in the snapshot it drops those up to and with the number that had
-- been reached before, and forwards each later one once, in order.
pub client_open_stream-rollback :
    (agent : OpenRequest → Answer) (fail_over_logs : ℕ → Option (List FailoverEntry))
    → (vb_id : ℕ) (offset : Offset) (so : Observer)
    → (back : ℕ) (logs logs' : List FailoverEntry) (log : FailoverEntry)
    → agent (open_request vb_id offset) ≡ rollback_error back
    → fail_over_logs vb_id ≡ some logs
    → agent (rollback_request vb_id back offset.latest_seq_no logs) ≡ opened (log ∷ logs')
    → (make : InternalItem → Event) (add : ObserverMetric → ObserverMetric)
    → (s : SnapshotMarker) (es : List Item) → so.mitigation_disabled ≡ true
    → so.skip_until ≡ none
    → so.closed ≡ false
    → All (λ e. within (some s) e.seq_no ≡ true) es
    → InOrder es
    → IsFirstNotBehind back (rollback_request vb_id back offset.latest_seq_no logs).vb_uuid logs
      × ((opened_so marked_so last_so : Observer) × (client_open_stream agent fail_over_logs vb_id
              offset so
            ≡ some (
              true,
              opened_so,
              rollback_request vb_id back offset.latest_seq_no logs
                  ∷ open_request vb_id offset
                  ∷ [],
            ))
          × (snapshot_marker [] opened_so s ≡ done (marked_so, dcp_snapshot_marker s ∷ []))
          × (handle_items make add marked_so es
              ≡ done (last_so, map (sent make (reopened so log s) s) (above offset.seq_no es))))
unfolding client_open_stream
client_open_stream-rollback agent fail_over_logs vb_id offset so back logs logs' log asks known
      opens make add s es no_mitigation no_window is_open inside order =
    let after = reopened so log s in
    let (last_so, sends) =
      catchup_forwards_above make add s after offset.seq_no es
        (record {
          mitigation_off = no_mitigation;
          no_window = no_window;
          is_open = is_open;
          snapshot = refl;
        })
        inside order in
    (
      target_uuid-IsFirstNotBehind back logs,
      (
        set_catchup (set_vb_uuid so log.vb_uuid) offset.seq_no,
        set_catchup after offset.seq_no,
        last_so,
        rw (asks, known, opens),
        marks (set_catchup (set_vb_uuid so log.vb_uuid) offset.seq_no) s no_mitigation is_open,
        sends,
      ),
    )
