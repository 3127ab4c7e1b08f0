-- ===== src/Lifecycle/Rebalancing.antt =====
-- What calls of Rebalance in stream/stream.go come to, however many there are.
use go_dcp.Prelude.{
  ℕ, ◌+◌, ◌≡◌, refl, Bool, true, false, Option, none, some, List, [], ◌∷◌, nat_comparable, arith,
  if◌then◌else◌, ◌>>=◌,
}
use go_dcp.Wrapper.{CsMap, ConcurrentSwissMap, create}
use go_dcp.Models.{Offset}
use go_dcp.Observer.{Observer}
use go_dcp.Stream.{Stream, armed, finishes_rebalance}
use go_dcp.Lifecycle.Closing.{
  closable_observers, close_observers, forget_streams, stream_close, arm, rebalance,
}

module _ ⦃cs : CsMap ℕ⦄ where
  -- Calls of Rebalance one after another, each with what ends do to the stream during its Close.
  abbrev pub rebalances : Stream → List (Stream → Stream) → Option Stream
  rebalances s [] = some s
  rebalances s (meanwhile ∷ later) = rebalance meanwhile s >>= λ s'. rebalances s' later

  -- The stream that the first call closes, when it has met the ends.
  abbrev pub closing : (Stream → Stream) → Stream → Stream
  closing meanwhile s = meanwhile (close_observers (record s { balancing = true }) false)

  -- A stream that waits for its timer to open again.
  pub record IsBetween (s : Stream) : Type 0 where
    pub is_balancing : s.balancing ≡ true
    pub is_locked : s.rebalance_locked ≡ true
    pub waits : s.rebalance_timer ≡ some (armed finishes_rebalance)
    pub no_observers : s.observers ≡ none
    pub no_offsets : s.offsets ≡ create Offset 1024
    pub no_marks : s.dirty_offsets ≡ create Bool 1024
    pub is_closed : s.open_ ≡ false

  rebalance-start :
      (meanwhile : Stream → Stream) (s : Stream) (os : ConcurrentSwissMap ℕ Observer)
      → closable_observers s ≡ some os
      → s.balancing ≡ false
      → s.rebalance_locked ≡ false
      → rebalance meanwhile s ≡ some (arm (forget_streams (closing meanwhile s)))
  unfolding rebalance stream_close
  rebalance-start meanwhile s os observed idle unlocked = ground arith

  rebalance-again :
      (meanwhile : Stream → Stream) (s : Stream) → rebalance meanwhile (arm s) ≡ some (arm s)
  unfolding rebalance
  rebalance-again meanwhile s = refl

  rebalances-again :
      (later : List (Stream → Stream)) (s : Stream) → rebalances (arm s) later ≡ some (arm s)
  rebalances-again [] s = refl
  rebalances-again (meanwhile ∷ later) s =
      rw (rebalance-again meanwhile s) (rebalances-again later s)

  -- Any number of calls of Rebalance before the timer runs come to one rebalance: on a stream that
  -- is not balancing, whose lock is free, whose rollback mitigation is off or still observes and
  -- which has its observers, the first one closes the stream once, sends one message that it was
  -- closed unless it had ended, and forgets the offsets and observers; the later ones close
  -- nothing, and the timer that opens the stream again waits.
  pub rebalances_lem :
      (meanwhile : Stream → Stream) (later : List (Stream → Stream))
      → (s : Stream) (os : ConcurrentSwissMap ℕ Observer) → closable_observers s ≡ some os
      → s.balancing ≡ false
      → s.rebalance_locked ≡ false
      → (s' : Stream) × (rebalances s (meanwhile ∷ later) ≡ some s')
        × IsBetween s'
        × (s'.finish_with_close_ch ≡ (
            if (closing meanwhile s).stream_finished_with_end_event
            then (closing meanwhile s).finish_with_close_ch
            else (closing meanwhile s).finish_with_close_ch + 1))
  unfolding forget_streams
  rebalances_lem meanwhile later s os observed idle unlocked =
      let closed = forget_streams (closing meanwhile s) in
      (
        arm closed,
        rw (rebalance-start meanwhile s os observed idle unlocked) (rebalances-again later closed),
        record {
          is_balancing = refl;
          is_locked = refl;
          waits = refl;
          no_observers = refl;
          no_offsets = refl;
          no_marks = refl;
          is_closed = refl;
        },
        refl,
      )
