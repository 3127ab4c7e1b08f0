-- ===== src/Mitigation/Defs.antt =====
-- couchbase/rollback_mitigation.go: the state, and what a new configuration changes in it. A panic is
-- `none`. Tickers, and the channels that stop the observing goroutine, are left out.
use go_dcp.Prelude.{
  ℕ, zero, suc, ◌+◌, ◌*◌, ◌%◌, ◌^◌, Bool, true, false, not, ◌||◌, Option, none, some, List, [], ◌∷◌,
  nat_comparable, length, ltb, ◌==◌, if◌then◌else◌, ◌>>=◌,
}
use go_dcp.Wrapper.{CsMap, ConcurrentSwissMap, create, load, store, range}

-- vbUUIDAndSeqNo
pub record Replica : Type 0 where
  pub vb_uuid : ℕ
  pub seq_no : ℕ
  pub absent : Bool

-- gocbcore.ObserveVbResult
pub record ObserveVbResult : Type 0 where
  pub vb_uuid : ℕ
  pub persist_seq_no : ℕ

-- What the callback of an observation is called with.
pub data Observed : Type 0 where
  observed : ObserveVbResult → Observed
  unambiguous_timeout temporary_failure other_failure : Observed

-- What VbucketToServer answers: an index, an index below zero, ErrInvalidReplica or another error.
pub data ServerOf : Type 0 where
  at_server : ℕ → ServerOf
  no_server invalid_replica server_failure : ServerOf

-- gocbcore.ConfigSnapshot, by what is read of it; a number of replicas may be an error. Revisions
-- are taken not to be negative.
pub record ConfigSnapshot : Type 0 where
  pub rev_epoch : ℕ
  pub rev_id : ℕ
  pub num_replicas : Option ℕ
  pub v_bucket_to_server : ℕ → ℕ → ServerOf

unfoldable pub is_outdated : Replica → ObserveVbResult → Bool
is_outdated v last =
    if not v.absent
    then not (v.vb_uuid == last.vb_uuid) || not (v.seq_no == last.persist_seq_no)
    else false

unfoldable pub is_config_snapshot_newer_than : ConfigSnapshot → ConfigSnapshot → Bool
is_config_snapshot_newer_than old new =
    if ltb new.rev_epoch old.rev_epoch
    then false
    else if new.rev_epoch == old.rev_epoch
    then if new.rev_id == old.rev_id
      then false
      else if ltb new.rev_id old.rev_id
      then false
      else true
    else true

-- The second loop of getMinSeqNo, over the replicas behind the first that is not absent.
unfoldable pub min_loop : ℕ → ℕ → List Replica → ℕ
min_loop vb_uuid min_seq_no [] = min_seq_no
min_loop vb_uuid min_seq_no (replica ∷ rest) =
    let same = min_loop vb_uuid min_seq_no rest in
    let lower = min_loop vb_uuid replica.seq_no rest in
    if replica.absent
    then same
    else if not (vb_uuid == replica.vb_uuid)
    then 0
    else if ltb replica.seq_no min_seq_no
    then lower
    else same

-- The first loop looks for a replica that is not absent.
unfoldable pub min_of : List Replica → ℕ
unfolding min_loop
min_of [] = 0
min_of (replica ∷ rest) =
    let further = min_of rest in
    if replica.absent then further else min_loop replica.vb_uuid replica.seq_no rest

abbrev pub or_nil : Option (List Replica) → List Replica
or_nil none = []
or_nil (some replicas) = replicas

abbrev pub set_at : ℕ → Replica → List Replica → List Replica
set_at n r [] = []
set_at zero r (x ∷ xs) = r ∷ xs
set_at (suc n) r (x ∷ xs) = x ∷ set_at n r xs

abbrev pub new_replica : Replica
new_replica = record { vb_uuid = 0; seq_no = 0; absent = false }

abbrev pub new_replicas : ℕ → List Replica
new_replicas zero = []
new_replicas (suc n) = new_replica ∷ new_replicas n

-- `none` is an error.
unfoldable pub mark_absent_replicas : ConfigSnapshot → ℕ → ℕ → List Replica → Option (List Replica)
mark_absent_replicas snapshot vb_id idx [] = some []
mark_absent_replicas snapshot vb_id idx (replica ∷ rest) =
    marked (snapshot.v_bucket_to_server vb_id idx) >>= λ replica'.
    mark_absent_replicas snapshot vb_id (suc idx) rest >>= λ rest'. some (replica' ∷ rest')
  where
    marked : ServerOf → Option Replica
    marked (at_server n) = some replica
    marked no_server = some (record replica { absent = true })
    marked invalid_replica = some (record replica { absent = true })
    marked server_failure = none

module _ ⦃cs : CsMap ℕ⦄ where
  pub record RollbackMitigation : Type 0 where
    pub config_snapshot : Option ConfigSnapshot
    pub persisted_seq_nos : ConcurrentSwissMap ℕ (List Replica)
    pub observe_count : ℕ
    pub vb_uuid_map : ConcurrentSwissMap ℕ ℕ
    pub vb_ids : List ℕ
    pub active_group_id : ℕ
    pub config_watch_running : Bool
    pub closed : Bool

  unfoldable pub get_min_seq_no : RollbackMitigation → ℕ → ℕ
  unfolding min_of
  get_min_seq_no r vb_id = min_of (or_nil (load r.persisted_seq_nos vb_id))

  abbrev pub store_replicas :
      ℕ → List ℕ → ConcurrentSwissMap ℕ (List Replica) → ConcurrentSwissMap ℕ (List Replica)
  store_replicas arr_len [] m = m
  store_replicas arr_len (vb_id ∷ vb_ids) m =
      store_replicas arr_len vb_ids (store m vb_id (new_replicas arr_len))

  unfoldable pub reset : RollbackMitigation → ConfigSnapshot → Option RollbackMitigation
  reset r snapshot = snapshot.num_replicas >>= λ replicas. some (record r {
    persisted_seq_nos = store_replicas (replicas + 1) r.vb_ids (create (List Replica) 1024);
    observe_count = (length r.vb_ids * (replicas + 1)) % 2 ^ 32;
  })

  unfoldable pub mark_absent_instances :
      RollbackMitigation → ConfigSnapshot → Option RollbackMitigation
  unfolding range mark_absent_replicas
  mark_absent_instances r snapshot =
      range r.persisted_seq_nos
        (λ vb_id replicas all. (
          all >>= λ m. mark_absent_replicas snapshot vb_id 0 replicas >>= λ marked.
              some (store m vb_id marked),
          true,
        ))
        (some r.persisted_seq_nos)
      >>= λ m. some (record r { persisted_seq_nos = m })

  unfoldable pub reconfigure : RollbackMitigation → ConfigSnapshot → Option RollbackMitigation
  unfolding reset mark_absent_instances
  reconfigure r snapshot =
      reset (record r { active_group_id = r.active_group_id + 1 }) snapshot >>= λ r'.
      mark_absent_instances r' snapshot
