-- ===== src/Observer/Defs.antt =====
-- couchbase/observer.go: the state and the methods of an observer.
use go_dcp.Prelude.{
  ℕ, ◌+◌, Bool, true, false, not, ◌&&◌, ◌||◌, Option, none, some, List, [], ◌∷◌, String, lookup,
  ltb, leb, ◌==◌, if◌then◌else◌, nat_comparable,
}
use go_dcp.Models.{SnapshotMarker, Offset, Event}
use go_dcp.Observer.Outcomes.{Outcome, done, waiting, not_in_snapshot, ◌>>=◌}

abbrev pub default_collection_name : String
default_collection_name = "_default"

-- The counters are float64 in the source; they count below 2 ^ 53.
pub record ObserverMetric : Type 0 where
  pub total_mutations : ℕ
  pub total_deletions : ℕ
  pub total_expirations : ℕ

abbrev pub add_mutation : ObserverMetric → ObserverMetric
add_mutation om = record om { total_mutations = om.total_mutations + 1 }

abbrev pub add_deletion : ObserverMetric → ObserverMetric
add_deletion om = record om { total_deletions = om.total_deletions + 1 }

abbrev pub add_expiration : ObserverMetric → ObserverMetric
add_expiration om = record om { total_expirations = om.total_expirations + 1 }

-- `mitigation_disabled` and `skip_until` are the two settings that it reads: the pointer
-- config.Dcp.Listener.SkipUntil in nanoseconds, and config.RollbackMitigation.Disabled.
pub record Observer : Type 0 where
  pub mitigation_disabled : Bool
  pub skip_until : Option ℕ
  pub current_snapshot : Option SnapshotMarker
  pub collection_ids : List (ℕ × String)
  pub metrics : ObserverMetric
  pub vb_uuid : ℕ
  pub catchup_seq_no : ℕ
  pub persist_seq_no : ℕ
  pub latest_seq_no : ℕ
  pub vb_id : ℕ
  pub is_catchup_need : Bool
  pub closed : Bool
  pub end_closed : Bool

unfoldable pub new_observer : Bool → Option ℕ → ℕ → ℕ → List (ℕ × String) → Observer
new_observer mitigation_disabled skip_until vb_id latest_seq_no collection_ids = record {
  mitigation_disabled = mitigation_disabled;
  skip_until = skip_until;
  current_snapshot = none;
  collection_ids = collection_ids;
  metrics = record { total_mutations = 0; total_deletions = 0; total_expirations = 0 };
  vb_uuid = 0;
  catchup_seq_no = 0;
  persist_seq_no = 0;
  latest_seq_no = latest_seq_no;
  vb_id = vb_id;
  is_catchup_need = false;
  closed = false;
  end_closed = false;
}

unfoldable pub set_catchup : Observer → ℕ → Observer
set_catchup so seq_no = record so { catchup_seq_no = seq_no; is_catchup_need = true }

unfoldable pub set_persist_seq_no : Observer → ℕ → Observer
set_persist_seq_no so seq =
    if not (seq == 0)
    then if ltb so.persist_seq_no seq then record so { persist_seq_no = seq } else so
    else so

unfoldable pub close : Observer → Observer
close so = record so { closed = true }

unfoldable pub set_vb_uuid : Observer → ℕ → Observer
set_vb_uuid so vb_uuid = record so { vb_uuid = vb_uuid }

unfoldable pub close_end : Observer → Observer
close_end so = record so { end_closed = true }

unfoldable pub check_persist_seq_no : Observer → ℕ → Bool
check_persist_seq_no so seq_no = leb seq_no so.persist_seq_no || so.closed

unfoldable pub need_catchup : Observer → ℕ → Bool × Observer
need_catchup so seq_no =
    if not so.is_catchup_need
    then (false, so)
    else if leb so.catchup_seq_no seq_no
    then (seq_no == so.catchup_seq_no, record so { is_catchup_need = false })
    else (true, so)

-- What other goroutines do to the observer between two polls of the waiting loop.
pub data Poke : Type 0 where
  persisted : ℕ → Poke
  closes : Poke
  catches_up : ℕ → Poke
  gets_vb_uuid : ℕ → Poke

unfoldable pub poke : Poke → Observer → Observer
unfolding set_persist_seq_no close set_catchup set_vb_uuid
poke (persisted seq) so = set_persist_seq_no so seq
poke closes so = close so
poke (catches_up seq) so = set_catchup so seq
poke (gets_vb_uuid vb_uuid) so = set_vb_uuid so vb_uuid

-- The loop polls, sleeps, and polls again; `pokes` are what happens during the sleeps.
unfoldable pub wait_rollback_mitigation : List Poke → Observer → ℕ → Outcome Observer
unfolding check_persist_seq_no poke
wait_rollback_mitigation [] so seq_no = if check_persist_seq_no so seq_no then done so else waiting
wait_rollback_mitigation (p ∷ pokes) so seq_no =
    let rest = wait_rollback_mitigation pokes (poke p so) seq_no in
    if check_persist_seq_no so seq_no then done so else rest

-- isControl || !needCatchup(seqNo), whose right side is not run for a control event
unfoldable pub pass_catchup : Observer → ℕ → Bool → Bool × Observer
unfolding need_catchup
pass_catchup so seq_no true = (true, so)
pass_catchup so seq_no false = let (need, so') = need_catchup so seq_no in (not need, so')

unfoldable pub can_forward : List Poke → Observer → ℕ → Bool → Outcome (Bool × Observer)
unfolding wait_rollback_mitigation pass_catchup
can_forward pokes so seq_no is_control = do
  so' ← if so.mitigation_disabled then done so else wait_rollback_mitigation pokes so seq_no
  done (pass_catchup so' seq_no is_control)

-- `SkipUntil.After(eventTime)`
unfoldable pub is_before_skip_window : Observer → ℕ → Bool
is_before_skip_window so event_time = elim so.skip_until [
  | none ↦ false
  | some skip_until ↦ ltb event_time skip_until
]

unfoldable pub convert_to_collection_name : Observer → ℕ → String
convert_to_collection_name so collection_id = elim (lookup collection_id so.collection_ids) [
  | none ↦ default_collection_name
  | some name ↦ name
]

-- What the listener is called with.
unfoldable pub send_or_skip : Observer → Event → List Event
send_or_skip so event = if so.closed then [] else event ∷ []

abbrev pub within : Option SnapshotMarker → ℕ → Bool
within none seq_no = false
within (some s) seq_no = leb s.start_seq_no seq_no && leb seq_no s.end_seq_no

-- The snapshot, where the source goes on to dereference `currentSnapshot`.
unfoldable pub is_in_snapshot_marker : Option SnapshotMarker → ℕ → Outcome SnapshotMarker
is_in_snapshot_marker none seq_no = not_in_snapshot
is_in_snapshot_marker (some s) seq_no = if within (some s) seq_no then done s else not_in_snapshot

abbrev pub offset_of : Observer → SnapshotMarker → ℕ → Offset
offset_of so snapshot seq_no = record {
  snapshot = snapshot;
  vb_uuid = so.vb_uuid;
  seq_no = seq_no;
  latest_seq_no = so.latest_seq_no;
}
