-- ===== src/Program/Defs.antt =====
-- dcp.go: what Start and close do with the stream and its checkpoints. Calls of the parts that hold no
-- state of these (the API, the election, the health check, the bus) are left out.
use go_dcp.Prelude.{
  ℕ, Bool, Option, none, some, List, String, nat_comparable, string_comparable, if◌then◌else◌,
  ◌>>=◌,
}
use go_dcp.Wrapper.{CsMap}
use go_dcp.Config.Types.{Dcp}
use go_dcp.Config.Views.{is_couchbase_metadata, is_file_metadata}
use go_dcp.Metadata.{Metadata, read_metadata}
use go_dcp.Models.{Offset}
use go_dcp.Stream.{Stream}
use go_dcp.Observer.{Observer}
use go_dcp.Checkpoint.{Checkpoint, Log, Offsets, checkpoint_type_auto, save}
use go_dcp.Lifecycle.{stream_open, stream_close}

abbrev pub is_auto : Dcp → Bool
is_auto config = string_comparable.beq config.checkpoint.type checkpoint_type_auto

module _ ⦃cs : CsMap ℕ⦄ where
  -- Which store of checkpoints Start takes: the one of SetMetadata, or the one that the
  -- configuration names. `none` is the panic on a type that it does not know.
  unfoldable pub choose_metadata : Option Metadata → Metadata → Metadata → Dcp → Option Metadata
  unfolding is_couchbase_metadata is_file_metadata
  choose_metadata given couchbase file config = by_type given >>= λ chosen.
      some (if config.metadata.read_only then read_metadata chosen else chosen)
    where
      by_type : Option Metadata → Option Metadata
      by_type (some metadata) = some metadata
      by_type none =
          if is_couchbase_metadata config
          then some couchbase
          else if is_file_metadata config
          then some file
          else none

  pub record Program : Type 0 where
    pub config : Dcp
    pub stream : Stream
    pub checkpoint : Checkpoint
    pub close_with_cancel : Bool

  -- Start, as far as it makes the stream and opens it. `collection_ids` is what the client answers,
  -- `none` an error; the arguments of Open are those of the stream.
  unfoldable pub start :
      Option (List (ℕ × String))
      → (ℕ → Offset → Option (Observer → Observer))
      → (ℕ → Stream → Stream)
      → (List ℕ → List ℕ)
      → List ℕ
      → Bool
      → Option Offsets
      → Program
      → Option Program
  unfolding stream_open
  start collection_ids client meanwhile opening vb_ids ephemeral loaded p = do
    ids ← collection_ids
    stream ←
        stream_open client meanwhile opening (record p.stream { collection_ids = ids }) vb_ids
          ephemeral loaded
    some (record p { stream = stream })

  module _ (metadata : Metadata) where
    pub record Closed : Type 0 where
      pub log : Option Log
      pub stream : Stream
      pub checkpoint : Checkpoint
      pub state : metadata.State
      pub closed_streams : List ℕ

    -- Save, where the checkpoint is automatic
    unfoldable pub last_save :
        (Stream → Stream)
        → Program
        → metadata.State
        → Option (Option Log × Checkpoint × Stream × metadata.State)
    last_save meanwhile p state =
        if is_auto p.config
        then (save metadata meanwhile p.checkpoint p.stream state >>= λ (log, c, s, state').
            some (some log, c, s, state'))
        else some (none, p.checkpoint, p.stream, state)

    -- close, from the last save to the close of the stream, which is all that it does with the
    -- stream, the checkpoint and the store; it stops the health check and the discovery before, and
    -- the election, the API and the connections after. `meanwhile` and `later` are what happens to
    -- the stream while documents are written and while streams are closed. `none` does not return,
    -- by a panic or in the close of the stream.
    unfoldable pub close :
        (Stream → Stream) → (Stream → Stream) → Program → metadata.State → Option Closed
    close meanwhile later p state = do
      (log, c, s, state') ← last_save meanwhile p state
      (s', closed) ← stream_close later s p.close_with_cancel
      some (record {
        log = log;
        stream = s';
        checkpoint = c;
        state = state';
        closed_streams = closed;
      })
