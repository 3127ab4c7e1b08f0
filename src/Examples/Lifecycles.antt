-- ===== src/Examples/Lifecycles.antt =====
-- A stream that opens and ends.
use go_dcp.Prelude.{
  Option, none, sym, ◌∙◌, ap, ◌≤◌, ℕ, ◌+◌, ◌-◌, ◌≡◌, refl, Bool, true, false, ◌&&◌, some, List, [],
  ◌∷◌, nat_comparable, arith, ltb, ◌==◌, if◌then◌else◌,
}
use go_dcp.Wrapper.{create, store, load}
use go_dcp.Models.{Offset}
use go_dcp.Observer.{Observer, set_vb_uuid}
use go_dcp.Stream.{Stream, set_offset}
use go_dcp.Stream.Runs.{acknowledges, run}
use go_dcp.Stream.Progress.{keeps_run}
use go_dcp.Checkpoint.{Offsets}
use go_dcp.Lifecycle.{EndError, no_error, stream_open, close_observers}
use go_dcp.Lifecycle.Attempts.{Client, GoesOn, HasHistory, SetsHistory}
use go_dcp.Discovery.{range_of}
use go_dcp.Lifecycle.Opening.{IsIn, stream_open_lem}
use go_dcp.Lifecycle.Ending.{listen_ends, listen_ends_lem}
use go_dcp.Lifecycle.Rebalancing.{rebalances, IsBetween, rebalances_lem}
use go_dcp.Examples.Fixtures.{nat_table, offset_at, stream_at_10, open_observer}

abbrev last_end : List (ℕ × EndError)
last_end = (3, no_error) ∷ []

listen_ends_lem_example :
    (s' : Stream) × (listen_ends stream_at_10 last_end ≡ some s')
    × (s'.active_streams ≡ 1 - 1)
    × (s'.finish_with_end_event_ch ≡ (if ltb 0 1 && 1 == 1 then 0 + 1 else 0))
listen_ends_lem_example =
    listen_ends_lem stream_at_10 last_end refl refl (refl, tt) (omega arith) (omega arith)

abbrev loaded_offsets : Offsets
loaded_offsets = (store (create Offset 1024) 3 (offset_at 10), create Bool 1024, false)

-- The server is at history 77 everywhere.
abbrev server : Client
server vb_id o = some (λ so. set_vb_uuid so 77)

abbrev history : Option (Observer → Observer) → Observer → ℕ
history none so = 77
history (some f) so = (f so).vb_uuid

server-SetsHistory : SetsHistory (λ j. 77) server
unfolding set_vb_uuid
server-SetsHistory j o f e so = ap (λ g. history g so) (sym e)

-- A listener acknowledges 14 for vBucket 3 while the streams open.
abbrev acknowledged : ℕ → Stream → Stream
acknowledged vb_id t = run t (acknowledges 3 (offset_at 14) ∷ [])

acknowledged-same :
    (t : Stream)
    → ((acknowledged 3 t).observers ≡ t.observers)
      × ((acknowledged 3 t).mitigation_disabled ≡ t.mitigation_disabled)
      × ((acknowledged 3 t).vb_id_range ≡ t.vb_id_range)
unfolding run set_offset
acknowledged-same t = ground arith

acknowledged-GoesOn : (j : ℕ) (t : Stream) → GoesOn (λ k. 77) t (acknowledged j t)
acknowledged-GoesOn j t =
    let (observers, mitigation, vb_ids) = acknowledged-same t in
    record {
      moves_on = λ k o h. keeps_run t (acknowledges 3 (offset_at 14) ∷ []) k o h;
      observes = λ k (os, so, e, found, at). (os, so, observers ∙ e, found, at);
      same_range = vb_ids;
      same_mitigation = mitigation;
    }

abbrev or_same : Option Stream → Stream
or_same none = stream_at_10
or_same (some s) = s

abbrev opened_stream : Stream
unfolding stream_open
opened_stream = or_same (
    stream_open server acknowledged (λ vb_ids. vb_ids) stream_at_10 (3 ∷ []) false
      (some loaded_offsets))

stream_open_lem_example :
    (opened_stream.open_ ≡ true)
    × ((j : ℕ)
        → IsIn j (3 ∷ [])
        → (o : Offset) × (f : Observer → Observer) × (server j o ≡ some f)
          × ((first : Offset) → load loaded_offsets.0 j ≡ some first → first.seq_no ≤ o.seq_no)
          × HasHistory (λ k. 77) opened_stream j)
    × (some opened_stream.vb_id_range ≡ range_of (3 ∷ []))
    × (opened_stream.mitigation_disabled ≡ true)
unfolding stream_open load store create range_of set_offset run go_dcp.Models.in_range
    go_dcp.Wrapper.visit
stream_open_lem_example =
    stream_open_lem (λ k. 77) server acknowledged server-SetsHistory acknowledged-GoesOn
      (λ vb_ids. vb_ids) stream_at_10 opened_stream (3 ∷ []) false loaded_offsets (λ j among. among)
      refl

abbrev pub observed_stream : Stream
observed_stream = record stream_at_10 {
  observers = some (store (create Observer 1024) 3 open_observer);
}

abbrev pub nothing_ends : Stream → Stream
nothing_ends s = s

rebalances_lem_example :
    (s' : Stream) × (rebalances observed_stream (nothing_ends ∷ nothing_ends ∷ []) ≡ some s')
    × IsBetween s'
    × (s'.finish_with_close_ch ≡ 1)
unfolding close_observers
rebalances_lem_example =
    rebalances_lem nothing_ends (nothing_ends ∷ []) observed_stream
      (store (create Observer 1024) 3 open_observer) refl refl refl
