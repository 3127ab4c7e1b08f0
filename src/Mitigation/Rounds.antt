-- ===== src/Mitigation/Rounds.antt =====
-- couchbase/rollback_mitigation.go: the rounds that watch the configuration and observe the replicas. A
-- panic is `none`.
use go_dcp.Prelude.{
  ℕ, suc, Bool, true, false, not, ◌&&◌, ◌||◌, Option, none, some, List, [], ◌∷◌, ◌++◌,
  nat_comparable, get_elem?, length, ltb, ◌==◌, if◌then◌else◌, ◌>>=◌,
}
use go_dcp.Wrapper.{CsMap, create, load, store, range}
use go_dcp.Models.{PersistSeqNo}
use go_dcp.Mitigation.Defs.{
  Replica, ObserveVbResult, Observed, observed, unambiguous_timeout, temporary_failure,
  other_failure, ConfigSnapshot, is_outdated, is_config_snapshot_newer_than, or_nil, set_at,
  RollbackMitigation, get_min_seq_no, reconfigure,
}

module _ ⦃cs : CsMap ℕ⦄ where
  abbrev pub is_new : Option ConfigSnapshot → ConfigSnapshot → Bool
  is_new none snapshot = true
  is_new (some old) snapshot = is_config_snapshot_newer_than old snapshot

  -- The snapshot that the client answers; `none` is an error.
  unfoldable pub config_watch :
      RollbackMitigation → Option ConfigSnapshot → Option RollbackMitigation
  unfolding reconfigure is_config_snapshot_newer_than
  config_watch r none = some r
  config_watch r (some snapshot) =
      if is_new r.config_snapshot snapshot
      then reconfigure (record r { config_snapshot = some snapshot }) snapshot
      else some r

  -- A replica that is there takes the answer, and the observers are told if it is news.
  abbrev pub take_answer :
      RollbackMitigation
      → ℕ
      → ℕ
      → List Replica
      → ObserveVbResult
      → Option Replica
      → RollbackMitigation × List PersistSeqNo
  take_answer r vb_id replica replicas result none = (r, [])
  take_answer r vb_id replica replicas result (some known) =
      let known' : Replica = record known {
        seq_no = result.persist_seq_no;
        vb_uuid = result.vb_uuid;
      } in
      let r' : RollbackMitigation = record r {
        persisted_seq_nos = store r.persisted_seq_nos vb_id (set_at replica known' replicas);
      } in
      let told : PersistSeqNo = record { vb_id = vb_id; seq_no = get_min_seq_no r' vb_id } in
      if is_outdated known result then (r', told ∷ []) else (r, [])

  abbrev pub take_uuid : ℕ → ℕ → ObserveVbResult → Bool → RollbackMitigation → RollbackMitigation
  take_uuid vb_id vb_uuid result is_there r =
      if is_there && not (vb_uuid == result.vb_uuid)
      then record r { vb_uuid_map = store r.vb_uuid_map vb_id result.vb_uuid }
      else r

  abbrev pub answered :
      RollbackMitigation → ℕ → ℕ → ℕ → Observed → Option (RollbackMitigation × List PersistSeqNo)
  answered r vb_id replica vb_uuid (observed result) =
      let replicas = or_nil (load r.persisted_seq_nos vb_id) in
      let (r', told) = take_answer r vb_id replica replicas result (get_elem? replicas replica) in
      some (take_uuid vb_id vb_uuid result (ltb replica (length replicas)) r', told)
  answered r vb_id replica vb_uuid unambiguous_timeout = some (r, [])
  answered r vb_id replica vb_uuid temporary_failure = some (r, [])
  answered r vb_id replica vb_uuid other_failure = none

  -- The callback of observe: the new state, and what persistSeqNoDispatcher is called with.
  unfoldable pub observe :
      RollbackMitigation
      → ℕ
      → ℕ
      → ℕ
      → ℕ
      → Observed
      → Option (RollbackMitigation × List PersistSeqNo)
  unfolding get_min_seq_no is_outdated
  observe r vb_id replica group_id vb_uuid answer =
      if r.closed || not (r.active_group_id == group_id)
      then some (r, [])
      else answered r vb_id replica vb_uuid answer

  -- `failOverLogs[0]` of the client's answer; `none` is an error, or a panic at an empty log.
  unfoldable pub load_vb_uuid :
      RollbackMitigation → (ℕ → Option (List ℕ)) → ℕ → Option RollbackMitigation
  load_vb_uuid r fail_over_logs vb_id = fail_over_logs vb_id >>= λ uuids.
      get_elem? uuids 0 >>= λ uuid. some (record r { vb_uuid_map = store r.vb_uuid_map vb_id uuid })

  unfoldable pub load_vb_uuid_map :
      RollbackMitigation → (ℕ → Option (List ℕ)) → Option RollbackMitigation
  unfolding range load_vb_uuid
  load_vb_uuid_map r fail_over_logs =
      range r.persisted_seq_nos
        (λ vb_id replicas all. (all >>= λ s. load_vb_uuid s fail_over_logs vb_id, true)) (some r)

  abbrev pub or_no_uuid : Option ℕ → ℕ
  or_no_uuid none = 0
  or_no_uuid (some uuid) = uuid

  -- The replicas that are observed for a vBucket: its number, the replica's, and the UUID.
  abbrev pub observe_replicas : RollbackMitigation → ℕ → ℕ → ℕ → List Replica → List (ℕ × ℕ × ℕ)
  observe_replicas r group_id vb_id idx [] = []
  observe_replicas r group_id vb_id idx (replica ∷ rest) =
      let later = observe_replicas r group_id vb_id (suc idx) rest in
      if replica.absent || (r.closed || not (r.active_group_id == group_id))
      then later
      else (vb_id, idx, or_no_uuid (load r.vb_uuid_map vb_id)) ∷ later

  -- A tick of startObserve: what observe is called for.
  unfoldable pub start_observe : RollbackMitigation → ℕ → List (ℕ × ℕ × ℕ)
  unfolding range
  start_observe r group_id =
      range r.persisted_seq_nos
        (λ vb_id replicas calls. (calls ++ observe_replicas r group_id vb_id 0 replicas, true)) []

  unfoldable pub stop : RollbackMitigation → RollbackMitigation
  stop r = record r { closed = true; config_watch_running = false }

  unfoldable pub new_rollback_mitigation : List ℕ → RollbackMitigation
  unfolding create
  new_rollback_mitigation vb_ids = record {
    config_snapshot = none;
    persisted_seq_nos = create (List Replica) 1024;
    observe_count = 0;
    vb_uuid_map = create ℕ 1024;
    vb_ids = vb_ids;
    active_group_id = 0;
    config_watch_running = false;
    closed = false;
  }

  -- What becomes of WaitForConfigSnapshot: an error with no call back, or a call back with a result,
  -- if there is one, and whether there is an error.
  pub data FirstConfig : Type 0 where
    not_called : FirstConfig
    called : Option ConfigSnapshot → Bool → FirstConfig

  -- The state, and whether there is an error. The result is read before the error is, and `none` is
  -- the panic where there is no result.
  unfoldable pub wait_first_config :
      RollbackMitigation → FirstConfig → Option (RollbackMitigation × Bool)
  wait_first_config r not_called = some (r, true)
  wait_first_config r (called result error) =
      result >>= λ snapshot. some (record r { config_snapshot = some snapshot }, error)

  -- Start up to the goroutine of the watch, which says that it runs.
  unfoldable pub start : RollbackMitigation → FirstConfig → Option RollbackMitigation
  unfolding wait_first_config reconfigure
  start r answer = do
    (r', error) ← wait_first_config r answer
    snapshot ← if error then none else r'.config_snapshot
    r'' ← reconfigure r' snapshot
    some (record r'' { config_watch_running = true })
