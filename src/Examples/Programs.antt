-- ===== src/Examples/Programs.antt =====
-- A client that connects to a server, and one that is closed, for dcp.go.
use go_dcp.Prelude.{
  ℕ, ◌≤◌, ◌≡◌, List, Option, length, ◌⊎◌, inr, refl, true, false, none, some, [], ◌∷◌,
  nat_comparable, pos,
}
use go_dcp.Wrapper.{create, load, store, store_if, visit}
use go_dcp.Models.{Offset, in_range}
use go_dcp.Observer.{Observer}
use go_dcp.Config.Types.{Dcp, int}
use go_dcp.Config.Defaults.{apply_defaults, from_env}
use go_dcp.Config.Complete.{IsComplete}
use go_dcp.Config.Stages.{IsKept}
use go_dcp.Config.Applied.{apply_defaults_lem}
use go_dcp.Stream.{Stream, unmark_dirty_offsets}
use go_dcp.Stream.Runs.{acknowledges, run}
use go_dcp.Checkpoint.{saved_checkpoint, error_while_saving, new_checkpoint, document_of, save}
use go_dcp.Lifecycle.Rebalancing.{rebalances, IsBetween, rebalances_lem}
use go_dcp.Program.{BucketInfo, Server, Program, Closed, close}
use go_dcp.Program.Features.{version_text}
use go_dcp.Program.ConfigFile.{new_dcp_config}
use go_dcp.Program.Expanding.{new_dcp_config_lem}
use go_dcp.Program.Closing.{close_keeps_acknowledged, close-IsBetween}
use go_dcp.Examples.Fixtures.{nat_table, offset_at, open_observer}
use go_dcp.Examples.Lifecycles.{observed_stream, nothing_ends}
use go_dcp.Examples.Configs.{whole, whole-IsExact, empty_config, no_env, is_info}
use go_dcp.Examples.Versions.{edition}
use go_dcp.Examples.Checkpoints.{orders, orders_durable, checkpoint, one_document, after_save}

abbrev bucket : BucketInfo
bucket = record { bucket_type = "membase"; storage_backend = "magma" }

abbrev magma_server : Server
magma_server = record {
  connects = true;
  answers_pings = true;
  implementation_version = some (version_text 7 2 0 5325 edition);
  bucket_info = some bucket;
  connects_dcp = λ expiry changes. true;
}

abbrev with_defaults :
    (d : Dcp) × (apply_defaults whole no_env is_info false empty_config ≡ some d)
    × IsComplete d
    × IsKept empty_config d
    × (d.dcp.group.membership.total_members ≡ pos 3)
    × (d.dcp.group.membership.member_number ≡ pos 1)
    × (apply_defaults whole no_env is_info true d ≡ some d)
unfolding from_env
with_defaults =
    apply_defaults_lem whole whole-IsExact no_env is_info empty_config false (pos 3) (pos 1)
      (refl, refl) (inr refl)

abbrev auto_config : Dcp
auto_config = record empty_config { checkpoint = record empty_config.checkpoint { type = "auto" } }

abbrev acknowledged_stream : Stream
acknowledged_stream = run observed_stream (acknowledges 3 (offset_at 14) ∷ [])

abbrev running : Program
running = record {
  config = auto_config;
  stream = acknowledged_stream;
  checkpoint = checkpoint;
  close_with_cancel = true;
}

last_save_works :
    save orders (λ s. s) checkpoint acknowledged_stream []
    ≡ some (saved_checkpoint, after_save, unmark_dirty_offsets acknowledged_stream, one_document)
unfolding save go_dcp.Metadata.Couchbase.save run create store load store_if visit new_checkpoint
    in_range
last_save_works = refl

close_keeps_acknowledged_example :
    (r : Closed orders) × (close orders (λ s. s) (λ s. s) running [] ≡ some r)
    × (r.stream.observers ≡ none)
    × (r.stream.open_ ≡ false)
    × ((r.log ≡ some error_while_saving)
        ⊎ ((d : Offset) × (orders_durable.kept r.state 3
              ≡ some (document_of checkpoint.bucket_uuid d))
            × (14 ≤ d.seq_no)))
unfolding in_range load store create run
close_keeps_acknowledged_example =
    close_keeps_acknowledged orders orders_durable (λ s. s) (λ s. s) running observed_stream
      (unmark_dirty_offsets acknowledged_stream) [] one_document saved_checkpoint after_save
      (store (create Observer 1024) 3 open_observer) 3 (offset_at 14) [] refl refl refl refl refl
      last_save_works

abbrev rebalancing :
    (s : Stream) × (rebalances observed_stream (nothing_ends ∷ []) ≡ some s) × IsBetween s
rebalancing =
    let (s, e, between, sent) =
      rebalances_lem nothing_ends [] observed_stream (store (create Observer 1024) 3 open_observer)
        refl refl refl in
    (s, e, between)

close-IsBetween_example :
    close orders (λ s. s) (λ s. s) (record running { stream = rebalancing.0 }) [] ≡ none
close-IsBetween_example =
    close-IsBetween orders (λ s. s) (λ s. s) (record running { stream = rebalancing.0 }) []
      rebalancing.2 rebalancing.2.no_observers

-- A parser that keeps how long the file is.
abbrev measure : List ℕ → Dcp → Option Dcp
measure text d = some (record d { connection_buffer_size = some (int (pos (length text))) })

abbrev buckets_env : List ℕ → Option (List ℕ)
buckets_env name = some (b'o' ∷ b'r' ∷ b'd' ∷ [])

-- `b: ${B}!` with `ord` for B
new_dcp_config_lem_example :
    new_dcp_config measure buckets_env empty_config
      (some (b'b' ∷ b':' ∷ b'$' ∷ b'{' ∷ b'B' ∷ b'}' ∷ b'!' ∷ []))
    ≡ measure
        (b'b' ∷ b':' ∷ b'o' ∷ b'r' ∷ b'd' ∷ b'!' ∷ [])
        (record empty_config { connection_buffer_size = some (int (pos 7)) })
new_dcp_config_lem_example =
    new_dcp_config_lem measure buckets_env empty_config
      (record empty_config { connection_buffer_size = some (int (pos 7)) }) b'B' []
      (b'o' ∷ b'r' ∷ b'd' ∷ []) (b'b' ∷ b':' ∷ []) (b'!' ∷ []) (refl, tt) (refl, (refl, tt))
      (refl, tt) refl refl
