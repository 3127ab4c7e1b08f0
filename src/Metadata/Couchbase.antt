-- ===== src/Metadata/Couchbase.antt =====
-- couchbase/metadata.go. The goroutines of a save run one after another here, in the order of the
-- list, which stands for any order; so do those of a load, which write to nothing that they share
-- but the map.
use go_dcp.Prelude.{
  ℕ, ◌≡◌, Bool, true, false, ◌||◌, Option, none, some, List, [], ◌∷◌, nat_comparable, if◌then◌else◌,
  ◌>>=◌,
}
use go_dcp.Wrapper.{CsMap, ConcurrentSwissMap, create, store}
use go_dcp.Models.{CheckpointDocument, new_empty_checkpoint_document}
use go_dcp.Metadata.Defs.{Metadata, Loaded, loaded, panicked}
use go_dcp.Metadata.Contract.{is_dirty}
use go_dcp.Metadata.Ids.{get_checkpoint_id}
use go_dcp.Metadata.Documents.{
  KvError, key_not_found, other_error, Found, found, not_read, Agent, create_document,
  upsert_xattrs, get_xattrs, delete_document,
}

-- sonic.Marshal and sonic.Unmarshal on checkpoint documents.
pub record Codec : Type 0 where
  pub marshal : CheckpointDocument → List ℕ
  pub unmarshal : List ℕ → Option CheckpointDocument
  pub unmarshal-marshal : (doc : CheckpointDocument) → unmarshal (marshal doc) ≡ some doc

abbrev pub first_error : Option KvError → Option KvError → Option KvError
first_error (some e) later = some e
first_error none later = later

module _ (agent : Agent) (codec : Codec) (group_name : List ℕ) where
  abbrev pub upsert_created :
      List ℕ → List ℕ → Option KvError × agent.State → Option KvError × agent.State
  upsert_created id payload (none, s) = upsert_xattrs agent s id payload
  upsert_created id payload (some e, s) = (some e, s)

  -- A document that is not there is created, and written again.
  abbrev pub upsert_or_create :
      List ℕ → List ℕ → Option KvError × agent.State → Option KvError × agent.State
  upsert_or_create id payload (some key_not_found, s) =
      upsert_created id payload (create_document agent s id [])
  upsert_or_create id payload (some other_error, s) = (some other_error, s)
  upsert_or_create id payload (none, s) = (none, s)

  unfoldable pub save_v_bucket_checkpoint :
      agent.State → ℕ → CheckpointDocument → Option (Option KvError × agent.State)
  unfolding get_checkpoint_id
  save_v_bucket_checkpoint s vb_id checkpoint_document =
      get_checkpoint_id vb_id group_name >>= λ id.
      let payload = codec.marshal checkpoint_document in
      some (upsert_or_create id payload (upsert_xattrs agent s id payload))

  abbrev pub save_if_dirty :
      List (ℕ × Bool) → agent.State → ℕ → CheckpointDocument → Option (Option KvError × agent.State)
  save_if_dirty dirty_offsets s vb_id doc =
      if is_dirty dirty_offsets vb_id then save_v_bucket_checkpoint s vb_id doc else some (none, s)

  abbrev pub with_error :
      Option KvError → Option (Option KvError × agent.State) → Option (Option KvError × agent.State)
  with_error err none = none
  with_error err (some (err', s)) = some (first_error err err', s)

  unfoldable pub save :
      agent.State
      → List (ℕ × CheckpointDocument)
      → List (ℕ × Bool)
      → Option (Option KvError × agent.State)
  unfolding save_v_bucket_checkpoint
  save s [] dirty_offsets = some (none, s)
  save s ((vb_id, doc) ∷ docs) dirty_offsets =
      save_if_dirty dirty_offsets s vb_id doc >>= λ (err, s').
      with_error err (save s' docs dirty_offsets)

  abbrev pub or_corrupted : List ℕ → Option CheckpointDocument → Option (CheckpointDocument × Bool)
  or_corrupted bucket_uuid (some doc) = some (doc, true)
  or_corrupted bucket_uuid none = some (new_empty_checkpoint_document bucket_uuid, false)

  abbrev pub read_document : List ℕ → Found → Option (CheckpointDocument × Bool)
  read_document bucket_uuid (found payload) = or_corrupted bucket_uuid (codec.unmarshal payload)
  read_document bucket_uuid (not_read key_not_found) =
      some (new_empty_checkpoint_document bucket_uuid, false)
  read_document bucket_uuid (not_read other_error) = none

  module _ ⦃cs : CsMap ℕ⦄ where
    unfoldable pub load_documents :
        agent.State
        → List ℕ
        → List ℕ
        → ConcurrentSwissMap ℕ CheckpointDocument
        → Bool
        → Option (ConcurrentSwissMap ℕ CheckpointDocument × Bool)
    unfolding get_checkpoint_id
    load_documents s [] bucket_uuid state exist = some (state, exist)
    load_documents s (vb_id ∷ vb_ids) bucket_uuid state exist =
        get_checkpoint_id vb_id group_name >>= λ id.
        read_document bucket_uuid (get_xattrs agent s id) >>= λ (doc, is_there).
        load_documents s vb_ids bucket_uuid (store state vb_id doc) (exist || is_there)

    abbrev pub load_result :
        Option (ConcurrentSwissMap ℕ CheckpointDocument × Bool) → Loaded KvError
    load_result none = panicked
    load_result (some (state, exist)) = loaded state exist

  abbrev pub unless_error :
      Option KvError × agent.State
      → (agent.State → Option (Option KvError × agent.State))
      → Option (Option KvError × agent.State)
  unless_error (none, s) k = k s
  unless_error (some e, s) k = some (some e, s)

  -- The first error ends it.
  unfoldable pub clear : agent.State → List ℕ → Option (Option KvError × agent.State)
  unfolding get_checkpoint_id
  clear s [] = some (none, s)
  clear s (vb_id ∷ vb_ids) = get_checkpoint_id vb_id group_name >>= λ id.
      unless_error (delete_document agent s id) (λ s'. clear s' vb_ids)

  module _ ⦃cs : CsMap ℕ⦄ where
    abbrev pub cb_metadata : Metadata
    cb_metadata = record {
      State = agent.State;
      Error = KvError;
      save = λ s docs dirty_offsets bucket_uuid. save s docs dirty_offsets;
      load = λ s vb_ids bucket_uuid.
          load_result (load_documents s vb_ids bucket_uuid (create CheckpointDocument 1024) false);
      clear = λ s vb_ids. clear s vb_ids;
    }
