-- ===== src/Metadata/Defs.antt =====
-- metadata/metadata.go and metadata/read_metadata.go.
use go_dcp.Prelude.{ℕ, Bool, Option, none, some, List, nat_comparable}
use go_dcp.Wrapper.{CsMap, ConcurrentSwissMap}
use go_dcp.Models.{CheckpointDocument}

-- What Load returns: the documents, and whether any checkpoint existed; an error is `failed`, and
-- a panic `panicked`.
pub data Loaded ⦃cs : CsMap ℕ⦄ (E : Type 0) : Type 0 where
  loaded : ConcurrentSwissMap ℕ CheckpointDocument → Bool → Loaded E
  failed : E → Loaded E
  panicked : Loaded E

-- The outer `none` of a save or a clear is a panic. An implementation reads and writes something outside of the program, its `State`. A built-in
-- map comes in the order in which it is gone through.
pub record Metadata ⦃cs : CsMap ℕ⦄ : Type 1 where
  pub State : Type 0
  pub Error : Type 0
  pub save :
      State
      → List (ℕ × CheckpointDocument)
      → List (ℕ × Bool)
      → List ℕ
      → Option (Option Error × State)
  pub load : State → List ℕ → List ℕ → Loaded Error
  pub clear : State → List ℕ → Option (Option Error × State)

module _ ⦃cs : CsMap ℕ⦄ where
  -- readMetadata passes Load on, and neither saves nor clears.
  abbrev pub read_metadata : Metadata → Metadata
  read_metadata metadata = record {
    State = metadata.State;
    Error = metadata.Error;
    save = λ state docs dirty_offsets bucket_uuid. some (none, state);
    load = metadata.load;
    clear = λ state vb_ids. some (none, state);
  }
