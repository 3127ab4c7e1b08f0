-- ===== src/Metadata/Contract.antt =====
-- What a store of checkpoints promises to the code that saves and loads through
-- metadata/metadata.go.
use go_dcp.Prelude.{
  ℕ, ◌≡◌, Bool, true, false, ◌||◌, Option, none, some, List, [], ◌∷◌, nat_comparable, lookup,
  HasDistinctKeys, contains, if◌then◌else◌,
}
use go_dcp.Wrapper.{CsMap, ConcurrentSwissMap, load}
use go_dcp.Models.{CheckpointDocument, new_empty_checkpoint_document}
use go_dcp.Metadata.Defs.{Metadata, loaded}

abbrev pub or_false : Option Bool → Bool
or_false none = false
or_false (some b) = b

-- A built-in map of Booleans at a key: `false` where it has none.
abbrev pub is_dirty : List (ℕ × Bool) → ℕ → Bool
is_dirty dirty_offsets vb_id = or_false (lookup vb_id dirty_offsets)

abbrev pub or_document :
    Option CheckpointDocument → Option CheckpointDocument → Option CheckpointDocument
or_document (some doc) old = some doc
or_document none old = old

abbrev pub or_empty : List ℕ → Option CheckpointDocument → CheckpointDocument
or_empty bucket_uuid (some doc) = doc
or_empty bucket_uuid none = new_empty_checkpoint_document bucket_uuid

abbrev pub is_some : Option CheckpointDocument → Bool
is_some (some doc) = true
is_some none = false

abbrev pub any_kept : (ℕ → Option CheckpointDocument) → List ℕ → Bool
any_kept kept [] = false
any_kept kept (v ∷ vs) = is_some (kept v) || any_kept kept vs

-- A store keeps at most one document for each vBucket. A save without an error keeps the documents
-- of the dirty vBuckets, and no other; a load that returns has, for each vBucket that it is asked
-- for, the document kept or an empty one, and says whether any is kept.
pub record Durable ⦃cs : CsMap ℕ⦄ (metadata : Metadata) : Type 0 where
  pub kept : metadata.State → ℕ → Option CheckpointDocument
  pub kept-save :
      (state state' : metadata.State) (docs : List (ℕ × CheckpointDocument))
      → (dirty : List (ℕ × Bool)) (bucket_uuid : List ℕ) → HasDistinctKeys docs
      → metadata.save state docs dirty bucket_uuid ≡ some (none, state')
      → (j : ℕ)
      → kept state' j
        ≡ (if is_dirty dirty j then or_document (lookup j docs) (kept state j) else kept state j)
  pub kept-load :
      (state : metadata.State) (vb_ids : List ℕ) (bucket_uuid : List ℕ)
      → (docs : ConcurrentSwissMap ℕ CheckpointDocument) (exist : Bool)
      → metadata.load state vb_ids bucket_uuid ≡ loaded docs exist
      → ((j : ℕ)
          → load docs j
            ≡ (if contains j vb_ids then some (or_empty bucket_uuid (kept state j)) else none))
        × (exist ≡ any_kept (kept state) vb_ids)
