-- ===== src/Lifecycle/Closing.antt =====
-- stream/stream.go: the methods that close and rebalance a stream, and the goroutine of Open. An Option
-- that is `none` stands for a panic, or for a call that waits, as each method says.
use go_dcp.Prelude.{
  ℕ, zero, suc, ◌+◌, ◌-◌, Bool, true, false, not, ◌||◌, Option, none, some, List, [], ◌∷◌, ◌++◌,
  nat_comparable, if◌then◌else◌, ◌>>=◌,
}
use go_dcp.Wrapper.{CsMap, ConcurrentSwissMap, create, store, range}
use go_dcp.Models.{Offset}
use go_dcp.Observer.{Observer, close}
use go_dcp.Stream.{
  Stream, StreamEndNotSupportedData, Timer, armed, fired, finishes_rebalance, starts_rebalance,
}
use go_dcp.Checkpoint.{Offsets}
use go_dcp.Lifecycle.Defs.{stream_open}

module _ ⦃cs : CsMap ℕ⦄ where
  abbrev pub each_observer :
      (Observer → Observer) → ConcurrentSwissMap ℕ Observer → ConcurrentSwissMap ℕ Observer
  each_observer f observers =
      range observers (λ vb_id observer all. (store all vb_id (f observer), true)) observers

  abbrev pub with_observers :
      (Observer → Observer)
      → Option (ConcurrentSwissMap ℕ Observer)
      → Option (ConcurrentSwissMap ℕ Observer)
  with_observers f none = none
  with_observers f (some observers) = some (each_observer f observers)

  -- The vBuckets from one to another, whose number is below the last of 16 bits.
  abbrev pub from_to : ℕ → ℕ → List ℕ
  from_to start zero = []
  from_to start (suc n) = start ∷ from_to (start + 1) n

  -- The vBuckets that CloseStream is called for, whose errors are only logged.
  unfoldable pub close_all_streams : Stream → List ℕ
  unfolding range
  close_all_streams s = by_support s.stream_end_not_supported
    where
      by_support : Option StreamEndNotSupportedData → List ℕ
      by_support none = range s.offsets (λ vb_id offset calls. (calls ++ (vb_id ∷ []), true)) []
      by_support (some data_) =
          from_to s.vb_id_range.start (suc s.vb_id_range.end - s.vb_id_range.start)

  -- Stop of the rollback mitigation waits for the goroutine that observes to end, and for ever when
  -- that has ended before.
  abbrev pub stop_returns : Stream → Bool
  stop_returns s = s.mitigation_disabled || s.mitigation_observed

  -- The observers that Close goes through, when Stop returns and there are any.
  abbrev pub closable_observers : Stream → Option (ConcurrentSwissMap ℕ Observer)
  closable_observers s = if stop_returns s then s.observers else none

  -- The first half of Close: rollback mitigation has stopped, and the observers are closed.
  unfoldable pub close_observers : Stream → Bool → Stream
  unfolding close range
  close_observers s close_with_cancel = record s {
    close_with_cancel = close_with_cancel;
    mitigation_observed = false;
    observers = with_observers close s.observers;
  }

  -- The second half, after closeAllStreams.
  unfoldable pub forget_streams : Stream → Stream
  forget_streams s = record s {
    observers = none;
    offsets = create Offset 1024;
    dirty_offsets = create Bool 1024;
    open_ = false;
    finish_with_close_ch =
        if s.stream_finished_with_end_event
        then s.finish_with_close_ch
        else s.finish_with_close_ch + 1;
  }

  -- `meanwhile` is what end events do to the stream while closeAllStreams waits. With `none` it does
  -- not return: Stop waits for ever, or else it is the panic on a stream that has no observers, whose
  -- map is nil then.
  unfoldable pub stream_close : (Stream → Stream) → Stream → Bool → Option (Stream × List ℕ)
  unfolding close_all_streams close_observers forget_streams
  stream_close meanwhile s close_with_cancel = closable_observers s >>= λ observers.
      let s' = close_observers s close_with_cancel in
      some (forget_streams (meanwhile s'), close_all_streams s')

  -- Which of the two channels the goroutine of Open hears from.
  unfoldable pub wait : Stream → Bool → Option Stream
  wait s by_close = finish (if by_close then s.finish_with_close_ch else s.finish_with_end_event_ch)
    where
      stop : Stream → Option Stream
      stop s' =
          if not s'.balancing
          then if s'.stop_closed then none else some (record s' { stop_closed = true })
          else some s'

      finish : ℕ → Option Stream
      finish zero = none
      finish (suc n) =
          if by_close
          then stop (record s { finish_with_close_ch = n; stream_finished_with_close = true })
          else stop
              (record s { finish_with_end_event_ch = n; stream_finished_with_end_event = true })

  abbrev pub rearmed : Timer → Timer
  rearmed (armed target) = armed target
  rearmed fired = armed starts_rebalance

  abbrev pub arm : Stream → Stream
  arm s = record s {
    balancing = true;
    rebalance_timer = some (armed finishes_rebalance);
    rebalance_locked = true;
  }

  -- A call of Rebalance while one is going on puts its timer back. `none` waits for the lock, or
  -- is a Close that does not return.
  unfoldable pub rebalance : (Stream → Stream) → Stream → Option Stream
  unfolding stream_close
  rebalance meanwhile s = by_timer s.rebalance_timer
    where
      start : Option Stream
      start =
          if s.rebalance_locked
          then none
          else if s.balancing
          then some (arm s)
          else (stream_close meanwhile (record s { balancing = true }) false >>= λ r.
              some (arm r.0))

      by_timer : Option Timer → Option Stream
      by_timer none = start
      by_timer (some timer) =
          if s.balancing then some (record s { rebalance_timer = some (rearmed timer) }) else start

  -- What the timer of a rebalance runs.
  unfoldable pub finish_rebalance :
      (ℕ → Offset → Option (Observer → Observer))
      → (ℕ → Stream → Stream)
      → (List ℕ → List ℕ)
      → Stream
      → List ℕ
      → Bool
      → Option Offsets
      → Option Stream
  unfolding stream_open
  finish_rebalance client meanwhile opening s vb_ids is_ephemeral loaded =
      stream_open client meanwhile opening (record s { rebalance_timer = some fired }) vb_ids
        is_ephemeral loaded
      >>= λ s'. some (record s' {
        rebalance_count = s'.rebalance_count + 1;
        balancing = false;
        rebalance_locked = false;
      })
