-- ===== src/Examples/Checkpoints.antt =====
-- Saves and loads of checkpoints, over a cluster that is empty at first.
use go_dcp.Prelude.{
  inl, ◌⊎◌, ℕ, ◌≤◌, ◌≡◌, refl, Bool, true, false, Option, none, some, List, [], ◌∷◌, nat_comparable,
  lookup, string_comparable, contains, codes, if◌then◌else◌,
}
use go_dcp.Wrapper.{ConcurrentSwissMap, create, load, store, store_if, visit}
use go_dcp.Wrapper.Laws.{or_load}
use go_dcp.Models.{Offset, CheckpointDocument, in_range}
use go_dcp.Metadata.{Metadata, loaded}
use go_dcp.Metadata.Contract.{Durable, or_false, is_dirty, or_document, or_empty, any_kept}
use go_dcp.Metadata.Couchbase.{cb_metadata, load_documents}
use go_dcp.Metadata.Ids.{get_checkpoint_id}
use go_dcp.Metadata.Saving.{document, document-save}
use go_dcp.Metadata.Loading.{cb_metadata_durable, document-loaded}
use go_dcp.Helpers.{max_int_value}
use go_dcp.Stream.{Stream, unmark_dirty_offsets}
use go_dcp.Stream.Runs.{acknowledges, run}
use go_dcp.Checkpoint.{
  Options, Checkpoint, no_need_to_save, saved_checkpoint, error_while_saving, new_checkpoint,
  document_of, save, load_checkpoint, or_zero, Offsets,
}
use go_dcp.Checkpoint.Dumps.{kept-saved}
use go_dcp.Checkpoint.Acknowledged.{acknowledged_is_kept, save-save}
use go_dcp.Checkpoint.Resuming.{load-resumes, resumed, load-save}
use go_dcp.Examples.Fixtures.{nat_table, offset_at, stream_at_10}
use go_dcp.Examples.Cluster.{cluster, plain_codec, Documents}

abbrev pub orders : Metadata
orders = cb_metadata cluster plain_codec (codes "orders")

abbrev pub orders_durable : Durable orders
orders_durable = cb_metadata_durable cluster plain_codec (codes "orders")

abbrev options : Options
options = record { checkpoint_type = "auto"; auto_reset = "latest"; dcp_mode = "infinite" }

abbrev pub checkpoint : Checkpoint
checkpoint = new_checkpoint options (3 ∷ []) (codes "b1")

abbrev stream_at_14 : Stream
stream_at_14 = run stream_at_10 (acknowledges 3 (offset_at 14) ∷ [])

abbrev key_3 : List ℕ
key_3 = codes "_connector:cbgo:orders:checkpoint:3"

abbrev pub one_document : Documents
one_document = (key_3, some (plain_codec.marshal (document_of (codes "b1") (offset_at 14)))) ∷ []

abbrev pub after_save : Checkpoint
after_save = record checkpoint { offset_write = 1 }

abbrev clean_stream : Stream
clean_stream = unmark_dirty_offsets stream_at_14

saves :
    save orders (λ s. s) checkpoint stream_at_14 []
    ≡ some (saved_checkpoint, after_save, clean_stream, one_document)
unfolding save go_dcp.Metadata.Couchbase.save run create store load store_if visit new_checkpoint
    in_range
saves = refl

kept-saved_example :
    (orders_durable.kept one_document 3 ≡ (
      if or_false (load stream_at_14.dirty_offsets 3)
      then or_document
          (or_load (document_of (codes "b1")) (load stream_at_14.offsets 3) none)
          (orders_durable.kept [] 3)
      else orders_durable.kept [] 3))
    × (load clean_stream.dirty_offsets 3 ≡ none)
    × (clean_stream.any_dirty_offset ≡ false)
    × (clean_stream.offsets ≡ stream_at_14.offsets)
unfolding new_checkpoint
kept-saved_example =
    kept-saved orders orders_durable (λ s. s) checkpoint after_save stream_at_14 clean_stream []
      one_document saves 3

acknowledged_is_kept_example :
    (saved_checkpoint ≡ error_while_saving)
    ⊎ ((saved_checkpoint ≡ saved_checkpoint)
        × ((d : Offset) × (load stream_at_14.offsets 3 ≡ some d)
            × (orders_durable.kept one_document 3 ≡ some (document_of checkpoint.bucket_uuid d))
            × (14 ≤ d.seq_no)))
unfolding in_range load store create
acknowledged_is_kept_example =
    acknowledged_is_kept orders orders_durable (λ s. s) checkpoint after_save stream_at_10
      clean_stream [] one_document saved_checkpoint 3 (offset_at 14) [] refl saves

save-save_example :
    (save orders (λ s. s) after_save clean_stream one_document
      ≡ some (no_need_to_save, after_save, clean_stream, one_document))
    × (clean_stream.offsets ≡ stream_at_14.offsets)
    × (clean_stream.any_dirty_offset ≡ false)
    × ((j : ℕ) → load clean_stream.dirty_offsets j ≡ none)
save-save_example =
    save-save orders (λ s. s) (λ s. s) checkpoint after_save after_save stream_at_14 clean_stream []
      one_document saves

abbrev server : ConcurrentSwissMap ℕ ℕ
server = store (create ℕ 1024) 3 50

abbrev no_logs : ℕ → Option (List ℕ)
no_logs vb_id = some (77 ∷ [])

abbrev resumed_offsets : Offsets
resumed_offsets = (
  store (create Offset 1024) 3 (resumed options 50 (document_of (codes "b1") (offset_at 14))),
  create Bool 1024,
  false,
)

loads : load_checkpoint orders checkpoint (some server) no_logs one_document ≡ some resumed_offsets
unfolding load_checkpoint load_documents get_checkpoint_id document_of load create store visit
    new_checkpoint
loads = refl

load-save_example :
    (e : Offset) × (load resumed_offsets.0 3 ≡ some e)
    × (e.seq_no ≡ 14)
    × (e.vb_uuid ≡ 77)
    × (e.snapshot ≡ (offset_at 14).snapshot)
    × (14 ≤ or_zero (load server 3))
unfolding run in_range load store store_if create new_checkpoint
load-save_example =
    load-save orders orders_durable (λ s. s) checkpoint after_save checkpoint stream_at_14
      clean_stream [] one_document server no_logs resumed_offsets 3 (offset_at 14) saves refl refl
      refl loads

load-resumes_example :
    ((or_empty checkpoint.bucket_uuid (orders_durable.kept one_document 3)).checkpoint.seq_no
      ≤ or_zero (load server 3))
    × (load resumed_offsets.0 3
        ≡ some (
            resumed checkpoint.config
              (or_zero (load server 3))
              (or_empty checkpoint.bucket_uuid (orders_durable.kept one_document 3))))
unfolding cb_metadata_durable new_checkpoint get_checkpoint_id document_of
load-resumes_example =
    load-resumes orders orders_durable checkpoint server no_logs one_document resumed_offsets 3
      (inl refl) refl loads

abbrev latest_offsets : Offsets
latest_offsets = (
  store (create Offset 1024) 3 (record {
    snapshot = record { start_seq_no = 50; end_seq_no = 50 };
    vb_uuid = 77;
    seq_no = 50;
    latest_seq_no = max_int_value;
  }),
  store (create Bool 1024) 3 true,
  true,
)

loads_latest : load_checkpoint orders checkpoint (some server) no_logs [] ≡ some latest_offsets
unfolding load_checkpoint load_documents get_checkpoint_id document_of load create store visit
    new_checkpoint
loads_latest = refl

abbrev docs_3 : List (ℕ × CheckpointDocument)
docs_3 = (3, document_of (codes "b1") (offset_at 14)) ∷ []

abbrev dirty_3 : List (ℕ × Bool)
dirty_3 = (3, true) ∷ []

document-save_example : document cluster plain_codec (codes "orders") one_document 3 ≡ (
    if is_dirty dirty_3 3
    then or_document (lookup 3 docs_3) (document cluster plain_codec (codes "orders") [] 3)
    else document cluster plain_codec (codes "orders") [] 3)
unfolding go_dcp.Metadata.Couchbase.save document_of
document-save_example =
    document-save cluster plain_codec (codes "orders") [] one_document docs_3 dirty_3 (refl, tt)
      refl 3

document-loaded_example :
    ((j : ℕ)
      → load (store (create CheckpointDocument 1024) 3 (document_of (codes "b1") (offset_at 14))) j
        ≡ (if contains j (3 ∷ [])
            then some (
                or_empty
                  (codes "b1")
                  (document cluster plain_codec (codes "orders") one_document j))
            else none))
    × (true ≡ any_kept (document cluster plain_codec (codes "orders") one_document) (3 ∷ []))
unfolding load_documents get_checkpoint_id document_of create store load
document-loaded_example =
    document-loaded cluster plain_codec (codes "orders") one_document (3 ∷ []) (codes "b1")
      (store (create CheckpointDocument 1024) 3 (document_of (codes "b1") (offset_at 14))) true refl
