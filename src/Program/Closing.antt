-- ===== src/Program/Closing.antt =====
-- What closing a client comes to, for dcp.go.
use go_dcp.Prelude.{
  ℕ, ◌≤◌, ◌≡◌, ◌⊎◌, inl, inr, refl, sym, ap, ◌∙◌, Bool, true, false, Option, none, some, List, ◌∷◌,
  string_comparable, nat_comparable, ◌>>=◌, Bool-cases, subst, arith,
}
use go_dcp.Wrapper.{CsMap, ConcurrentSwissMap}
use go_dcp.Models.{Offset}
use go_dcp.Observer.{Observer}
use go_dcp.Metadata.{Metadata}
use go_dcp.Metadata.Contract.{Durable}
use go_dcp.Stream.{Stream, unmark_dirty_offsets}
use go_dcp.Stream.Offsets.{accepts}
use go_dcp.Stream.Runs.{Step, acknowledges, run}
use go_dcp.Checkpoint.{Checkpoint, Log, error_while_saving, document_of, save, finish_save}
use go_dcp.Checkpoint.Dumps.{written, save-clean, save-dirty}
use go_dcp.Checkpoint.Acknowledged.{acknowledged_is_kept}
use go_dcp.Lifecycle.{
  stream_close, closable_observers, close_observers, close_all_streams, forget_streams,
}
use go_dcp.Lifecycle.Rebalancing.{IsBetween}
use go_dcp.Program.Defs.{Program, Closed, is_auto, last_save, close}

module _ ⦃cs : CsMap ℕ⦄ (metadata : Metadata) where
  -- Whether a save leaves the stream with the observers that it had.
  abbrev HasObservers :
      Option (ConcurrentSwissMap ℕ Observer)
      → Option (Log × Checkpoint × Stream × metadata.State)
      → Type 0
  HasObservers os none = Unit
  HasObservers os (some (log, c, s, state)) = closable_observers s ≡ os

  save-HasObservers :
      (meanwhile : Stream → Stream) (c : Checkpoint) (s : Stream) (state : metadata.State)
      → (os : Option (ConcurrentSwissMap ℕ Observer)) → closable_observers s ≡ os
      → closable_observers (meanwhile s) ≡ os
      → HasObservers os (save metadata meanwhile c s state)
  unfolding unmark_dirty_offsets
  save-HasObservers meanwhile c s state os here after = elim (Bool-cases s.any_dirty_offset) [
    | inr clean ↦ subst (HasObservers os) (sym (save-clean metadata meanwhile c s state clean)) here
    | inl marked ↦
        subst (HasObservers os) (sym (save-dirty metadata meanwhile c s state marked))
          (by_answer _ (written metadata c s state))
  ]
    where
      by_answer :
          (d : Checkpoint) (r : Option (Option metadata.Error × metadata.State))
          → HasObservers os (r >>= λ result. some (finish_save metadata d (meanwhile s) result))
      by_answer d none = tt
      by_answer d (some (some err, t)) = after
      by_answer d (some (none, t)) = after

  stream_close-observed :
      (later : Stream → Stream) (s : Stream) (cancel : Bool) (os : ConcurrentSwissMap ℕ Observer)
      → closable_observers s ≡ some os
      → stream_close later s cancel
        ≡ some (
          forget_streams (later (close_observers s cancel)),
          close_all_streams (close_observers s cancel),
        )
  unfolding stream_close
  stream_close-observed later s cancel os e =
      ap
        (λ o. o >>= λ observers. some (
          forget_streams (later (close_observers s cancel)),
          close_all_streams (close_observers s cancel),
        ))
        e

  stream_close-nothing :
      (later : Stream → Stream) (s : Stream) (cancel : Bool)
      → closable_observers s ≡ none
      → stream_close later s cancel ≡ none
  unfolding stream_close
  stream_close-nothing later s cancel e =
      ap
        (λ o. o >>= λ observers. some (
          forget_streams (later (close_observers s cancel)),
          close_all_streams (close_observers s cancel),
        ))
        e

  -- What close leaves, when its save has returned and the stream has observers.
  close_lem :
      (meanwhile later : Stream → Stream) (p : Program) (state state' : metadata.State)
      → (log : Option Log) (c : Checkpoint) (s : Stream) (os : ConcurrentSwissMap ℕ Observer)
      → last_save metadata meanwhile p state ≡ some (log, c, s, state')
      → closable_observers s ≡ some os
      → close metadata meanwhile later p state
        ≡ some (record {
          log = log;
          stream = forget_streams (later (close_observers s p.close_with_cancel));
          checkpoint = c;
          state = state';
          closed_streams = close_all_streams (close_observers s p.close_with_cancel);
        })
  unfolding close
  close_lem meanwhile later p state state' log c s os saved observed =
      rw (saved, stream_close-observed later s p.close_with_cancel os observed) refl

  last_save-auto :
      (meanwhile : Stream → Stream) (p : Program) (state state' : metadata.State)
      → (log : Log) (c : Checkpoint) (s : Stream) → is_auto p.config ≡ true
      → save metadata meanwhile p.checkpoint p.stream state ≡ some (log, c, s, state')
      → last_save metadata meanwhile p state ≡ some (some log, c, s, state')
  unfolding last_save
  last_save-auto meanwhile p state state' log c s auto e = rw (auto, e) refl

  -- A client whose checkpoint is automatic, whose rollback mitigation is off or still observes, and
  -- whose stream is not between two streams of a rebalance, closes when its last save returns: the
  -- stream is closed, and of an offset that a listener acknowledged before, and that was not behind
  -- the offset kept for its vBucket, the store has it or a later one, unless the save logs an
  -- error. What happens to the stream while the save writes does not close it, nor ends that; the
  -- store is any that meets the contract.
  pub close_keeps_acknowledged :
      (durable : Durable metadata) (meanwhile later : Stream → Stream) (p : Program) (s s' : Stream)
      → (state state' : metadata.State) (log : Log) (c : Checkpoint)
      → (os : ConcurrentSwissMap ℕ Observer) (j : ℕ) (o : Offset) (xs : List Step)
      → accepts s j o ≡ true
      → p.stream ≡ run s (acknowledges j o ∷ xs)
      → is_auto p.config ≡ true
      → closable_observers p.stream ≡ some os
      → closable_observers (meanwhile p.stream) ≡ some os
      → save metadata meanwhile p.checkpoint p.stream state ≡ some (log, c, s', state')
      → (r : Closed metadata) × (close metadata meanwhile later p state ≡ some r)
        × (r.stream.observers ≡ none)
        × (r.stream.open_ ≡ false)
        × ((r.log ≡ some error_while_saving)
            ⊎ ((d : Offset) × (durable.kept r.state j
                  ≡ some (document_of p.checkpoint.bucket_uuid d))
                × (o.seq_no ≤ d.seq_no)))
  unfolding forget_streams
  close_keeps_acknowledged durable meanwhile later p s s' state state' log c os j o xs taken ran
        auto here after saved =
      let observed : closable_observers s' ≡ some os =
        subst (HasObservers (some os)) saved
          (save-HasObservers meanwhile p.checkpoint p.stream state (some os) here after) in
      let kept =
        acknowledged_is_kept metadata durable meanwhile p.checkpoint c s s' state state' log j o xs
          taken (ap (λ t. save metadata meanwhile p.checkpoint t state) (sym ran) ∙ saved) in
      (
        _,
        close_lem meanwhile later p state state' (some log) c s' os
            (last_save-auto meanwhile p state state' log c s' auto saved) observed,
        refl,
        refl,
        elim kept [
          | inl failed ↦ inl (ap some failed)
          | inr (ok, (d, at, stored, le)) ↦ inr (d, stored, le)
        ],
      )

  abbrev KeepsObservers :
      Option (ConcurrentSwissMap ℕ Observer)
      → Option (Option Log × Checkpoint × Stream × metadata.State)
      → Type 0
  KeepsObservers os none = Unit
  KeepsObservers os (some (log, c, s, state)) = closable_observers s ≡ os

  last_save-KeepsObservers :
      (meanwhile : Stream → Stream) (p : Program) (state : metadata.State)
      → (os : Option (ConcurrentSwissMap ℕ Observer)) → closable_observers p.stream ≡ os
      → closable_observers (meanwhile p.stream) ≡ os
      → KeepsObservers os (last_save metadata meanwhile p state)
  unfolding last_save
  last_save-KeepsObservers meanwhile p state os here after = elim (Bool-cases (is_auto p.config)) [
    | inl auto ↦ rw auto (
        by_save (save metadata meanwhile p.checkpoint p.stream state)
          (save-HasObservers meanwhile p.checkpoint p.stream state os here after))
    | inr manual ↦ rw manual here
  ]
    where
      by_save :
          (r : Option (Log × Checkpoint × Stream × metadata.State))
          → HasObservers os r
          → KeepsObservers os (r >>= λ (log, c, s, state'). some (some log, c, s, state'))
      by_save none h = tt
      by_save (some (log, c, s, state')) h = h

  no_closable : (s : Stream) → s.observers ≡ none → closable_observers s ≡ none
  no_closable s e = ground arith

  -- A client that is closed after a rebalance has closed its stream, and before the rebalance has
  -- opened it again, does not get through the close of the stream, which never returns: it waits
  -- for an observation of rollback mitigation that has ended, or goes through observers of which
  -- there are none. What happens to the stream while a save writes does not open it.
  pub close-IsBetween :
      (meanwhile later : Stream → Stream) (p : Program) (state : metadata.State)
      → IsBetween p.stream
      → (meanwhile p.stream).observers ≡ none
      → close metadata meanwhile later p state ≡ none
  unfolding close
  close-IsBetween meanwhile later p state between after =
      by_save (last_save metadata meanwhile p state) (
        last_save-KeepsObservers meanwhile p state none (no_closable p.stream between.no_observers)
          (no_closable (meanwhile p.stream) after))
    where
      closed_with : Option Log → Checkpoint → metadata.State → Stream → List ℕ → Closed metadata
      closed_with log c state' s' closed = record {
        log = log;
        stream = s';
        checkpoint = c;
        state = state';
        closed_streams = closed;
      }

      by_save :
          (r : Option (Option Log × Checkpoint × Stream × metadata.State))
          → KeepsObservers none r
          → (r >>= λ (log, c, s, state').
              stream_close later s p.close_with_cancel >>= λ (s', closed).
              some (closed_with log c state' s' closed))
            ≡ none
      by_save none h = refl
      by_save (some (log, c, s, state')) h =
          rw (stream_close-nothing later s p.close_with_cancel h) refl
