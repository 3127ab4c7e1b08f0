-- ===== src/Mitigation/Revisions.antt =====
-- The order of configurations in couchbase/rollback_mitigation.go.
use go_dcp.Prelude.{◌≡◌, ◌⊎◌, ◌<◌, ◌↔◌, true, arith}
use go_dcp.Mitigation.Defs.{ConfigSnapshot, is_config_snapshot_newer_than}

-- A snapshot is newer exactly when its epoch is higher, or the epochs are the same and its revision
-- is higher; and of two snapshots, one is newer than the other or they have the same epoch and
-- revision.
pub is_config_snapshot_newer_than_lem :
    (old new : ConfigSnapshot)
    → (is_config_snapshot_newer_than old new ≡ true ↔ (
        (old.rev_epoch < new.rev_epoch)
        ⊎ ((old.rev_epoch ≡ new.rev_epoch) × (old.rev_id < new.rev_id))))
      × ((is_config_snapshot_newer_than old new ≡ true)
          ⊎ (is_config_snapshot_newer_than new old ≡ true)
          ⊎ ((old.rev_epoch ≡ new.rev_epoch) × (old.rev_id ≡ new.rev_id)))
unfolding is_config_snapshot_newer_than
is_config_snapshot_newer_than_lem old new = (ground arith, ground arith)
