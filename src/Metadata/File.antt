-- ===== src/Metadata/File.antt =====
-- metadata/file_metadata.go: all documents in one file.
use go_dcp.Prelude.{
  ℕ, ◌≡◌, refl, sym, ap, ◌∙◌, Bool, true, false, Option, none, some, List, [], ◌∷◌, nat_comparable,
  lookup, HasDistinctKeys,
}
use go_dcp.Wrapper.{CsMap, ConcurrentSwissMap, create, load, store}
use go_dcp.Wrapper.Json.{JsonMaps, unmarshal_json, store_all, load-store_all}
use go_dcp.Models.{CheckpointDocument, new_empty_checkpoint_document}
use go_dcp.Metadata.Defs.{Metadata, Loaded, loaded, failed}

pub data ReadFile : Type 0 where
  contents : List ℕ → ReadFile
  not_exist read_failed : ReadFile

-- The files of the operating system. A write may fail: `wrote` says whether it has taken place, which
-- the code does not ask.
pub record Files : Type 1 where
  pub State : Type 0
  pub write_file : State → List ℕ → State
  pub wrote : State → List ℕ → Bool
  pub read_file : State → ReadFile
  pub remove : State → State
  pub read-write_file :
      (s : State) (payload : List ℕ)
      → wrote s payload ≡ true
      → read_file (write_file s payload) ≡ contents payload

-- The errors of MarshalIndent and UnmarshalJSON are not looked at: without a text the file is empty, and
-- a text that cannot be read leaves the map as it is.
abbrev pub or_empty_text : Option (List ℕ) → List ℕ
or_empty_text none = []
or_empty_text (some text) = text

-- The encoder of `json` is MarshalIndent.
module _ ⦃cs : CsMap ℕ⦄ (files : Files) (json : JsonMaps ℕ CheckpointDocument) where
  abbrev Documents : Type 0
  Documents = ConcurrentSwissMap ℕ CheckpointDocument

  abbrev pub store_empty : List ℕ → List ℕ → Documents → Documents
  store_empty bucket_uuid [] state = state
  store_empty bucket_uuid (v ∷ vs) state =
      store_empty bucket_uuid vs (store state v (new_empty_checkpoint_document bucket_uuid))

  abbrev pub received : Documents → Option Documents → Documents
  received state none = state
  received state (some read) = read

  unfoldable pub load_file : List ℕ → List ℕ → ReadFile → Loaded ReadFile
  unfolding unmarshal_json create store
  load_file vb_ids bucket_uuid (contents payload) =
      let state : Documents = create CheckpointDocument 1024 in
      loaded (received state (unmarshal_json json state payload)) true
  load_file vb_ids bucket_uuid not_exist =
      loaded (store_empty bucket_uuid vb_ids (create CheckpointDocument 1024)) false
  load_file vb_ids bucket_uuid read_failed = failed read_failed

  -- Save writes every document, dirty or not, and reports no error; nor does Clear.
  abbrev pub file_metadata : Metadata
  file_metadata = record {
    State = files.State;
    Error = ReadFile;
    save = λ s docs dirty_offsets bucket_uuid.
        some (none, files.write_file s (or_empty_text (json.encode docs)));
    load = λ s vb_ids bucket_uuid. load_file vb_ids bucket_uuid (files.read_file s);
    clear = λ s vb_ids. some (none, files.remove s);
  }

  load_file-contents :
      (vb_ids bucket_uuid text : List ℕ) (l : List (ℕ × CheckpointDocument))
      → json.decode text ≡ some l
      → load_file vb_ids bucket_uuid (contents text)
        ≡ loaded (store_all json l (create CheckpointDocument 1024)) true
  unfolding load_file unmarshal_json
  load_file-contents vb_ids bucket_uuid text l decoded = rw decoded refl

  -- When the documents of a save have a text and the write of it takes place, a load after the save
  -- of the file gives back every document of the save, whether its vBucket was dirty or not, and no
  -- other, and says that a checkpoint exists.
  pub load_file-save :
      (s s' : files.State) (docs : List (ℕ × CheckpointDocument)) (dirty : List (ℕ × Bool))
      → (bucket_uuid other_uuid text : List ℕ) (err : Option ReadFile) (vb_ids : List ℕ)
      → HasDistinctKeys docs
      → json.encode docs ≡ some text
      → files.wrote s text ≡ true
      → file_metadata.save s docs dirty bucket_uuid ≡ some (err, s')
      → (err ≡ none)
        × ((r : ConcurrentSwissMap ℕ CheckpointDocument) × (file_metadata.load s' vb_ids other_uuid
              ≡ loaded r true)
            × ((j : ℕ) → load r j ≡ lookup j docs))
  load_file-save s s' docs dirty bucket_uuid other_uuid text err vb_ids distinct encoded wrote h =
      let (l, decoded, distinct_l, same) = json.decode-encode docs text distinct encoded in
      let written : files.write_file s (or_empty_text (json.encode docs))
          ≡ files.write_file s text =
        rw encoded refl in
      let clean : none ≡ err = cc in
      let state : files.write_file s text ≡ s' = cc in
      (
        sym clean,
        (
          store_all json l (create CheckpointDocument 1024),
          ap (λ t. load_file vb_ids other_uuid (files.read_file t)) (sym state)
              ∙ ap (load_file vb_ids other_uuid) (files.read-write_file s text wrote)
              ∙ load_file-contents vb_ids other_uuid text l decoded,
          λ j. load-store_all json l j distinct_l ∙ same j,
        ),
      )
