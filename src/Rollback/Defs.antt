-- ===== src/Rollback/Defs.antt =====
-- couchbase/client.go: OpenStream, openStreamWithRollback, and the callback of GetVBucketSeqNos. The
-- answers of the agent of gocbcore are arguments; filters and deadlines are left out.
use go_dcp.Prelude.{
  ℕ, Bool, true, false, Option, none, some, List, [], ◌∷◌, nat_comparable, ltb, leb, if◌then◌else◌,
}
use go_dcp.Wrapper.{CsMap, ConcurrentSwissMap, load, store}
use go_dcp.Models.{Offset}
use go_dcp.Observer.{Observer, set_vb_uuid, set_catchup}

-- gocbcore.FailoverEntry, and gocbcore.VbSeqNoEntry
pub record FailoverEntry : Type 0 where
  pub vb_uuid : ℕ
  pub seq_no : ℕ

pub record VbSeqNoEntry : Type 0 where
  pub vb_id : ℕ
  pub seq_no : ℕ

-- The arguments of the agent's OpenStream.
pub record OpenRequest : Type 0 where
  pub vb_id : ℕ
  pub flags : ℕ
  pub vb_uuid : ℕ
  pub start_seq_no : ℕ
  pub end_seq_no : ℕ
  pub snap_start_seq_no : ℕ
  pub snap_end_seq_no : ℕ

-- What it answers: the fail-over log of the stream, a gocbcore.DCPRollbackError, or another error.
pub data Answer : Type 0 where
  opened : List FailoverEntry → Answer
  rollback_error : ℕ → Answer
  other_error : Answer

-- The loop over the fail-over log, which runs from its end to its start.
unfoldable pub target_uuid : ℕ → List FailoverEntry → ℕ
target_uuid rollback_seq_no [] = 0
target_uuid rollback_seq_no (log ∷ logs) =
    let target = target_uuid rollback_seq_no logs in
    if leb log.seq_no rollback_seq_no then log.vb_uuid else target

-- Whether the stream was opened, the observer then, and the requests that were made.
abbrev pub Opening : Type 0
Opening = Bool × Observer × List OpenRequest

-- `failOverLogs[0]` panics on an empty log.
abbrev pub after_rollback : Observer → ℕ → List OpenRequest → Answer → Option Opening
after_rollback observer failed_seq_no requests (opened []) = none
after_rollback observer failed_seq_no requests (opened (log ∷ logs)) =
    some (true, set_catchup (set_vb_uuid observer log.vb_uuid) failed_seq_no, requests)
after_rollback observer failed_seq_no requests (rollback_error seq_no) =
    some (false, observer, requests)
after_rollback observer failed_seq_no requests other_error = some (false, observer, requests)

abbrev pub rollback_request : ℕ → ℕ → ℕ → List FailoverEntry → OpenRequest
rollback_request vb_id rollback_seq_no latest_seq_no logs = record {
  vb_id = vb_id;
  flags = 0;
  vb_uuid = target_uuid rollback_seq_no logs;
  start_seq_no = rollback_seq_no;
  end_seq_no = latest_seq_no;
  snap_start_seq_no = rollback_seq_no;
  snap_end_seq_no = rollback_seq_no;
}

abbrev pub rollback_at :
    (OpenRequest → Answer)
    → ℕ
    → ℕ
    → ℕ
    → ℕ
    → Observer
    → List OpenRequest
    → Option (List FailoverEntry)
    → Option Opening
rollback_at agent vb_id failed_seq_no rollback_seq_no latest_seq_no observer requests none =
    some (false, observer, requests)
rollback_at agent vb_id failed_seq_no rollback_seq_no latest_seq_no observer requests (some logs) =
    let request = rollback_request vb_id rollback_seq_no latest_seq_no logs in
    after_rollback observer failed_seq_no (request ∷ requests) (agent request)

-- `fail_over_logs` is what GetFailOverLogs answers; `none` is an error.
unfoldable pub open_stream_with_rollback :
    (OpenRequest → Answer)
    → (ℕ → Option (List FailoverEntry))
    → ℕ
    → ℕ
    → ℕ
    → ℕ
    → Observer
    → List OpenRequest
    → Option Opening
unfolding target_uuid set_catchup set_vb_uuid
open_stream_with_rollback agent fail_over_logs vb_id failed_seq_no rollback_seq_no latest_seq_no
      observer requests =
    rollback_at agent vb_id failed_seq_no rollback_seq_no latest_seq_no observer requests
      (fail_over_logs vb_id)

abbrev pub open_request : ℕ → Offset → OpenRequest
open_request vb_id offset = record {
  vb_id = vb_id;
  flags = 128;
  vb_uuid = offset.vb_uuid;
  start_seq_no = offset.seq_no;
  end_seq_no = offset.latest_seq_no;
  snap_start_seq_no = offset.snapshot.start_seq_no;
  snap_end_seq_no = offset.snapshot.end_seq_no;
}

abbrev pub after_open :
    (OpenRequest → Answer)
    → (ℕ → Option (List FailoverEntry))
    → ℕ
    → Offset
    → Observer
    → Answer
    → Option Opening
after_open agent fail_over_logs vb_id offset observer (opened []) = none
after_open agent fail_over_logs vb_id offset observer (opened (log ∷ logs)) =
    some (true, set_vb_uuid observer log.vb_uuid, open_request vb_id offset ∷ [])
after_open agent fail_over_logs vb_id offset observer (rollback_error seq_no) =
    open_stream_with_rollback agent fail_over_logs vb_id offset.seq_no seq_no offset.latest_seq_no
      observer (open_request vb_id offset ∷ [])
after_open agent fail_over_logs vb_id offset observer other_error =
    some (false, observer, open_request vb_id offset ∷ [])

unfoldable pub client_open_stream :
    (OpenRequest → Answer)
    → (ℕ → Option (List FailoverEntry))
    → ℕ
    → Offset
    → Observer
    → Option Opening
unfolding open_stream_with_rollback set_vb_uuid
client_open_stream agent fail_over_logs vb_id offset observer =
    after_open agent fail_over_logs vb_id offset observer (agent (open_request vb_id offset))

module _ ⦃cs : CsMap ℕ⦄ where
  abbrev pub is_higher : ℕ → Option ℕ → Bool
  is_higher seq_no none = true
  is_higher seq_no (some known) = ltb known seq_no

  -- The callback, over the entries that the nodes answer for their collections, in any order, one
  -- answer after the other.
  unfoldable pub merge_seq_nos : List VbSeqNoEntry → ConcurrentSwissMap ℕ ℕ → ConcurrentSwissMap ℕ ℕ
  merge_seq_nos [] seq_nos = seq_nos
  merge_seq_nos (entry ∷ entries) seq_nos = merge_seq_nos entries (
      if is_higher entry.seq_no (load seq_nos entry.vb_id)
      then store seq_nos entry.vb_id entry.seq_no
      else seq_nos)
