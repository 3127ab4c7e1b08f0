-- ===== src/Checkpoint/Defs.antt =====
-- stream/checkpoint.go, and stream/offset/offset_latest_seqno_init.go. The locks make one save wait
-- for another and one load for another; latencies are left out.
use go_dcp.Prelude.{
  ℕ, suc, Bool, true, false, not, ◌&&◌, Option, none, some, List, [], ◌∷◌, String, nat_comparable,
  string_comparable, insert, ltb, ◌==◌, if◌then◌else◌, ◌>>=◌,
}
use go_dcp.Wrapper.{CsMap, ConcurrentSwissMap, create, load, store, range}
use go_dcp.Helpers.{max_int_value}
use go_dcp.Models.{Offset, CheckpointDocument}
use go_dcp.Metadata.{Metadata, Loaded, loaded, failed, panicked}
use go_dcp.Stream.{Stream, get_offsets, unmark_dirty_offsets}

-- The options of config.Dcp that a checkpoint reads.
pub record Options : Type 0 where
  pub checkpoint_type : String
  pub auto_reset : String
  pub dcp_mode : String

abbrev pub checkpoint_type_auto : String
checkpoint_type_auto = "auto"

abbrev pub checkpoint_auto_reset_type_latest : String
checkpoint_auto_reset_type_latest = "latest"

abbrev pub dcp_mode_finite : String
dcp_mode_finite = "finite"

-- The metric is the field `offset_write`.
pub record Checkpoint : Type 0 where
  pub config : Options
  pub bucket_uuid : List ℕ
  pub vb_ids : List ℕ
  pub running : Bool
  pub offset_write : ℕ

unfoldable pub new_checkpoint : Options → List ℕ → List ℕ → Checkpoint
new_checkpoint config vb_ids bucket_uuid = record {
  config = config;
  bucket_uuid = bucket_uuid;
  vb_ids = vb_ids;
  running = false;
  offset_write = 0;
}

-- Which line a save logs.
pub data Log : Type 0 where
  no_need_to_save saved_checkpoint error_while_saving : Log

unfoldable pub document_of : List ℕ → Offset → CheckpointDocument
document_of bucket_uuid offset = record {
  checkpoint = record {
    vb_uuid = offset.vb_uuid;
    seq_no = offset.seq_no;
    snapshot = record {
      start_seq_no = offset.snapshot.start_seq_no;
      end_seq_no = offset.snapshot.end_seq_no;
    };
  };
  bucket_uuid = bucket_uuid;
}

abbrev pub initialize_latest_seq_no : Options → ℕ → ℕ
initialize_latest_seq_no config v_bucket_seq_no =
    if string_comparable.beq config.dcp_mode dcp_mode_finite then v_bucket_seq_no else max_int_value

abbrev pub or_zero : Option ℕ → ℕ
or_zero none = 0
or_zero (some n) = n

module _ ⦃cs : CsMap ℕ⦄ where
  unfoldable pub dump_offsets : List ℕ → ConcurrentSwissMap ℕ Offset → List (ℕ × CheckpointDocument)
  unfolding range document_of
  dump_offsets bucket_uuid offsets =
      range offsets
        (λ vb_id offset dump. (insert vb_id (document_of bucket_uuid offset) dump, true)) []

  abbrev pub dump_dirty_offset : ℕ → Bool → List (ℕ × Bool) × ℕ → List (ℕ × Bool) × ℕ
  dump_dirty_offset vb_id dirt (dump, dirty_count) =
      (insert vb_id dirt dump, if dirt then suc dirty_count else dirty_count)

  unfoldable pub dump_dirty_offsets : ConcurrentSwissMap ℕ Bool → List (ℕ × Bool) × ℕ
  unfolding range
  dump_dirty_offsets dirty_offsets =
      range dirty_offsets (λ vb_id dirt dump. (dump_dirty_offset vb_id dirt dump, true)) ([], 0)

  module _ (metadata : Metadata) where
    abbrev pub finish_save :
        Checkpoint
        → Stream
        → Option metadata.Error × metadata.State
        → Log × Checkpoint × Stream × metadata.State
    finish_save c s (none, state) = (saved_checkpoint, c, unmark_dirty_offsets s, state)
    finish_save c s (some err, state) = (error_while_saving, c, s, state)

    -- `meanwhile` is what events and acknowledgements do to the stream while the documents are
    -- written, since Save holds no lock of the stream.
    unfoldable pub save :
        (Stream → Stream)
        → Checkpoint
        → Stream
        → metadata.State
        → Option (Log × Checkpoint × Stream × metadata.State)
    unfolding dump_offsets dump_dirty_offsets unmark_dirty_offsets
    save meanwhile c s state =
        let (offsets, dirty_offsets, any_dirty_offset) = get_offsets s in
        let (dirty_offsets_dump, dirty_offset_count) = dump_dirty_offsets dirty_offsets in
        let c' : Checkpoint = record c { offset_write = dirty_offset_count } in
        let saved =
          metadata.save state (dump_offsets c.bucket_uuid offsets) dirty_offsets_dump c.bucket_uuid
          >>= λ result. some (finish_save c' (meanwhile s) result) in
        if any_dirty_offset then saved else some (no_need_to_save, c, s, state)

    unfoldable pub clear : Checkpoint → metadata.State → Option metadata.State
    clear c state = metadata.clear state c.vb_ids >>= λ (err, state'). some state'

  -- The offsets, the dirty offsets, and whether there is any dirty offset.
  abbrev pub Offsets : Type 0
  Offsets = ConcurrentSwissMap ℕ Offset × ConcurrentSwissMap ℕ Bool × Bool

  abbrev pub keep_offset : ℕ → Offset → Offsets → Offsets
  keep_offset vb_id offset (offsets, dirty_offsets, any_dirty_offset) =
      (store offsets vb_id offset, dirty_offsets, any_dirty_offset)

  -- One of the two walks over the documents.
  unfoldable pub walk_documents :
      (ℕ → CheckpointDocument → Option Offset)
      → (ℕ → Offset → Offsets → Offsets)
      → ConcurrentSwissMap ℕ CheckpointDocument
      → Option Offsets
  unfolding range
  walk_documents offset_for keep dump =
      range dump
        (λ vb_id doc all.
          (all >>= λ kept. offset_for vb_id doc >>= λ offset. some (keep vb_id offset kept), true))
        (some (create Offset 1024, create Bool 1024, false))

  -- The client's answers are parameters: the sequence numbers of GetVBucketSeqNos, and the vBucket
  -- UUIDs of a fail-over log; `none` is an error.
  module _ (seq_no_map : ConcurrentSwissMap ℕ ℕ) where
    -- `doc.Checkpoint` at a vBucket, in a callback that may panic.
    abbrev pub load_offset : Options → ℕ → CheckpointDocument → Option Offset
    load_offset config vb_id doc =
        let latest_seq_no = or_zero (load seq_no_map vb_id) in
        if ltb latest_seq_no doc.checkpoint.seq_no
        then none
        else some (record {
          snapshot = record {
            start_seq_no = doc.checkpoint.snapshot.start_seq_no;
            end_seq_no = doc.checkpoint.snapshot.end_seq_no;
          };
          vb_uuid = doc.checkpoint.vb_uuid;
          seq_no = doc.checkpoint.seq_no;
          latest_seq_no = initialize_latest_seq_no config latest_seq_no;
        })

    -- `failOverLogs[0].VbUUID`
    abbrev pub first_uuid : Option (List ℕ) → Option ℕ
    first_uuid none = none
    first_uuid (some []) = none
    first_uuid (some (uuid ∷ uuids)) = some uuid

    abbrev pub latest_offset : Options → (ℕ → Option (List ℕ)) → ℕ → Option Offset
    latest_offset config fail_over_logs vb_id =
        let current_seq_no = or_zero (load seq_no_map vb_id) in
        first_uuid (fail_over_logs vb_id) >>= λ uuid. some (record {
          snapshot = record { start_seq_no = current_seq_no; end_seq_no = current_seq_no };
          vb_uuid = uuid;
          seq_no = current_seq_no;
          latest_seq_no = initialize_latest_seq_no config current_seq_no;
        })

    abbrev pub keep_latest : ℕ → Offset → Offsets → Offsets
    keep_latest vb_id offset (offsets, dirty_offsets, any_dirty_offset) =
        if or_zero (load seq_no_map vb_id) == 0
        then (store offsets vb_id offset, dirty_offsets, any_dirty_offset)
        else (store offsets vb_id offset, store dirty_offsets vb_id true, true)

    unfoldable pub load_dump :
        Checkpoint
        → (ℕ → Option (List ℕ))
        → ConcurrentSwissMap ℕ CheckpointDocument
        → Bool
        → Option Offsets
    unfolding walk_documents
    load_dump c fail_over_logs dump exist =
        if not exist && string_comparable.beq c.config.auto_reset checkpoint_auto_reset_type_latest
        then walk_documents (λ vb_id doc. latest_offset c.config fail_over_logs vb_id) keep_latest
            dump
        else walk_documents (load_offset c.config) keep_offset dump

  module _ (metadata : Metadata) where
    abbrev pub dump_of :
        Loaded metadata.Error → Option (ConcurrentSwissMap ℕ CheckpointDocument × Bool)
    dump_of (loaded dump exist) = some (dump, exist)
    dump_of (failed err) = none
    dump_of panicked = none

    -- `none` is a panic.
    unfoldable pub load_checkpoint :
        Checkpoint
        → Option (ConcurrentSwissMap ℕ ℕ)
        → (ℕ → Option (List ℕ))
        → metadata.State
        → Option Offsets
    unfolding load_dump
    load_checkpoint c seq_nos fail_over_logs state =
        dump_of (metadata.load state c.vb_ids c.bucket_uuid) >>= λ (dump, exist).
        seq_nos >>= λ seq_no_map. load_dump seq_no_map c fail_over_logs dump exist

-- The goroutine of StartSchedule runs Save until `running` is false.
unfoldable pub start_schedule : Checkpoint → Checkpoint
start_schedule c =
    let c' : Checkpoint = record c { running = true } in
    if string_comparable.beq c.config.checkpoint_type checkpoint_type_auto then c' else c

unfoldable pub stop_schedule : Checkpoint → Checkpoint
stop_schedule c =
    let c' : Checkpoint = record c { running = false } in
    if string_comparable.beq c.config.checkpoint_type checkpoint_type_auto then c' else c
