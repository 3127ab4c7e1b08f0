-- ===== src/Models.antt =====
-- models/type.go, models/listeners.go: what the components hand to one another.
-- The structs of gocbcore are third-party: of each we keep the fields that this code reads, and
-- the value of an item, which it passes on.
use go_dcp.Prelude.{ℕ, ℤ, ◌*◌, ◌/◌, Bool, ◌&&◌, String, List, leb, ◌==◌}

pub record SnapshotMarker : Type 0 where
  pub start_seq_no : ℕ
  pub end_seq_no : ℕ

-- The embedded `*SnapshotMarker` is never nil in an offset: the observer checks that it is in a
-- snapshot before it makes one, and the checkpoint fills it in.
pub record Offset : Type 0 where
  pub snapshot : SnapshotMarker
  pub vb_uuid : ℕ
  pub seq_no : ℕ
  pub latest_seq_no : ℕ

pub record VbIdRange : Type 0 where
  pub start : ℕ
  pub end : ℕ

unfoldable pub in_range : VbIdRange → ℕ → Bool
in_range v vb_id = leb v.start vb_id && leb vb_id v.end

pub record PersistSeqNo : Type 0 where
  pub vb_id : ℕ
  pub seq_no : ℕ

-- gocbcore.DcpMutation, DcpDeletion, DcpExpiration
pub record Item : Type 0 where
  pub vb_id : ℕ
  pub seq_no : ℕ
  pub rev_no : ℕ
  pub cas : ℕ
  pub collection_id : ℕ
  pub key : List ℕ
  pub value : List ℕ

-- gocbcore.DcpCollectionCreation, DcpCollectionDeletion, DcpCollectionFlush, DcpCollectionModification
pub record CollectionChange : Type 0 where
  pub vb_id : ℕ
  pub seq_no : ℕ
  pub collection_id : ℕ

-- gocbcore.DcpScopeCreation, DcpScopeDeletion, DcpSeqNoAdvanced
pub record Advance : Type 0 where
  pub vb_id : ℕ
  pub seq_no : ℕ

-- InternalDcpMutation, InternalDcpDeletion, InternalDcpExpiration; the time in nanoseconds
pub record InternalItem : Type 0 where
  pub event_time : ℕ
  pub item : Item
  pub offset : Offset
  pub collection_name : String

-- InternalDcpMutation.IsCreated
unfoldable pub is_created : InternalItem → Bool
is_created i = i.item.rev_no == 1

-- InternalDcpCollectionCreation, -Deletion, -Flush, -Modification
pub record InternalCollection : Type 0 where
  pub change : CollectionChange
  pub offset : Offset
  pub collection_name : String

-- InternalDcpScopeCreation, InternalDcpScopeDeletion, InternalDcpSeqNoAdvance
pub record InternalAdvance : Type 0 where
  pub advance : Advance
  pub offset : Offset

-- The dynamic types of `ListenerArgs.Event`.
pub data Event : Type 0 where
  dcp_snapshot_marker : SnapshotMarker → Event
  dcp_mutation dcp_deletion dcp_expiration : InternalItem → Event
  dcp_collection_creation dcp_collection_deletion : InternalCollection → Event
  dcp_collection_flush dcp_collection_modification : InternalCollection → Event
  dcp_scope_creation dcp_scope_deletion dcp_seq_no_advanced : InternalAdvance → Event
  dcp_oso_snapshot : ℕ → Event

pub record CheckpointDocumentCheckpoint : Type 0 where
  pub snapshot : SnapshotMarker
  pub vb_uuid : ℕ
  pub seq_no : ℕ

pub record CheckpointDocument : Type 0 where
  pub checkpoint : CheckpointDocumentCheckpoint
  pub bucket_uuid : List ℕ

unfoldable pub new_empty_checkpoint_document : List ℕ → CheckpointDocument
new_empty_checkpoint_document bucket_uuid = record {
  checkpoint = record {
    vb_uuid = 0;
    seq_no = 0;
    snapshot = record { start_seq_no = 0; end_seq_no = 0 };
  };
  bucket_uuid = bucket_uuid;
}

-- time.Unix(int64(cas / 1000000000), 0), in nanoseconds
unfoldable pub event_time_of : ℕ → ℕ
event_time_of cas = cas / 1000000000 * 1000000000

pub record AgentQueue : Type 0 where
  pub address : List ℕ
  pub is_dcp : Bool
  pub current : ℤ
  pub max : ℤ
