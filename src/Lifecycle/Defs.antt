-- ===== src/Lifecycle/Defs.antt =====
-- stream/stream.go: the methods that open a stream, end it and open it again. Calls of the event handler
-- and of the schedule of checkpoints are left out. An Option that is `none` stands for a panic, or for
-- a call that waits, as each method says.
use go_dcp.Prelude.{
  ℕ, zero, suc, ◌+◌, ◌-◌, ◌%◌, ◌^◌, Bool, true, false, not, ◌&&◌, ◌||◌, Option, none, some, List,
  [], ◌∷◌, nat_comparable, length, ◌==◌, if◌then◌else◌, ◌>>=◌,
}
use go_dcp.Wrapper.{CsMap, ConcurrentSwissMap, create, load, store, range}
use go_dcp.Models.{Offset, VbIdRange, PersistSeqNo}
use go_dcp.Discovery.{range_of}
use go_dcp.Observer.{Observer, new_observer, set_persist_seq_no}
use go_dcp.Stream.{Stream, StreamEndNotSupportedData}
use go_dcp.Checkpoint.{Offsets}

-- The error beside an end event, as far as listenEnd tells errors apart.
pub data EndError : Type 0 where
  no_error socket_closed backfill_failed state_changed too_slow disconnected other_error : EndError

-- The errors after which the stream of the vBucket is opened again.
abbrev pub reopens : EndError → Bool
reopens no_error = false
reopens socket_closed = true
reopens backfill_failed = true
reopens state_changed = true
reopens too_slow = true
reopens disconnected = true
reopens other_error = false

pub data OpenError : Type 0 where
  offset_not_found : ℕ → OpenError
  not_opened : OpenError

-- reopenStream: `answer` is what the attempt with that number answers. It gives up by a panic;
-- otherwise it returns after the attempt with the number it returns.
unfoldable pub reopen_loop {ℓ} : {E : Type ℓ} → (ℕ → Option E) → ℕ → ℕ → Option ℕ
reopen_loop answer zero attempt = none
reopen_loop answer (suc retry) attempt =
    let again = reopen_loop answer retry (attempt + 1) in
    elim (answer attempt) [ none ↦ some attempt | some err ↦ again ]

unfoldable pub reopen_stream {ℓ} : {E : Type ℓ} → (ℕ → Option E) → Option ℕ
unfolding reopen_loop
reopen_stream answer = reopen_loop answer 5 0

module _ ⦃cs : CsMap ℕ⦄ where
  -- `activeStreams.Add(-1)` on an int32.
  abbrev pub one_less : ℕ → ℕ
  one_less n = (n + (2 ^ 32 - 1)) % 2 ^ 32

  -- Where ends are taken one by one, an end makes room in the queue; `none` waits for one to be
  -- there.
  abbrev pub take_queued : Stream → Option StreamEndNotSupportedData → Option Stream
  take_queued s none = some s
  take_queued s (some data_) =
      if data_.ending
      then if data_.queue == 0
        then none
        else some (record s {
          stream_end_not_supported = some (record data_ { queue = data_.queue - 1 });
        })
      else some s

  abbrev pub ended : Stream → Stream
  ended s =
      let s' : Stream = record s { active_streams = one_less s.active_streams } in
      let last : Stream = record s {
        active_streams = one_less s.active_streams;
        finish_with_end_event_ch = s.finish_with_end_event_ch + 1;
      } in
      if one_less s.active_streams == 0 && not s.stream_finished_with_close then last else s'

  -- The vBuckets that are opened again. A goroutine that sends on a full channel waits with its
  -- message, and is counted as if the message were in.
  unfoldable pub listen_end : Stream → ℕ → EndError → Option (Stream × List ℕ)
  listen_end s vb_id err = take_queued s s.stream_end_not_supported >>= λ s'.
      some (if not s'.close_with_cancel && reopens err then (s', vb_id ∷ []) else (ended s', []))

  unfoldable pub dispatch_persist_seq_no : Stream → PersistSeqNo → Stream
  unfolding set_persist_seq_no
  dispatch_persist_seq_no s p = to_observers s.observers
    where
      to_observer : ConcurrentSwissMap ℕ Observer → Option Observer → Stream
      to_observer observers none = s
      to_observer observers (some observer) = record s {
        observers = some (store observers p.vb_id (set_persist_seq_no observer p.seq_no));
      }

      to_observers : Option (ConcurrentSwissMap ℕ Observer) → Stream
      to_observers none = s
      to_observers (some observers) = to_observer observers (load observers p.vb_id)

  -- What openStream comes to; it panics when the stream has no observer for the server's answer.
  pub data Attempt : Type 0 where
    opened : Stream → Attempt
    failed : OpenError → Attempt
    no_observer : Attempt

  abbrev pub to_observer :
      (Observer → Observer) → Stream → ℕ → ConcurrentSwissMap ℕ Observer → Option Observer → Attempt
  to_observer f s vb_id observers none = no_observer
  to_observer f s vb_id observers (some observer) =
      opened (record s { observers = some (store observers vb_id (f observer)) })

  abbrev pub to_observers :
      (Observer → Observer) → Stream → ℕ → Option (ConcurrentSwissMap ℕ Observer) → Attempt
  to_observers f s vb_id none = no_observer
  to_observers f s vb_id (some observers) = to_observer f s vb_id observers (load observers vb_id)

  abbrev pub opened_with : Stream → ℕ → Option (Observer → Observer) → Attempt
  opened_with s vb_id none = failed not_opened
  opened_with s vb_id (some f) = to_observers f s vb_id s.observers

  abbrev pub open_at :
      (ℕ → Offset → Option (Observer → Observer)) → Stream → ℕ → Option Offset → Attempt
  open_at client s vb_id none = failed (offset_not_found vb_id)
  open_at client s vb_id (some offset) = opened_with s vb_id (client vb_id offset)

  -- `client` is OpenStream of the client: `none` is an error, and otherwise it says what becomes of
  -- the observer, whose history is set, with the end of a catch-up after a rollback.
  unfoldable pub open_stream : (ℕ → Offset → Option (Observer → Observer)) → Stream → ℕ → Attempt
  unfolding load store
  open_stream client s vb_id = open_at client s vb_id (load s.offsets vb_id)

  abbrev pub opened_or_panic : Attempt → Option Stream
  opened_or_panic (opened s) = some s
  opened_or_panic (failed err) = none
  opened_or_panic no_observer = none

  -- The streams open one after another, in the order of the list, in which the answers of the server
  -- come: before each of them, `meanwhile` is what events of streams that are open already do.
  -- `none` is the panic.
  unfoldable pub open_all_streams :
      (ℕ → Offset → Option (Observer → Observer))
      → (ℕ → Stream → Stream)
      → Stream
      → List ℕ
      → Option Stream
  unfolding open_stream
  open_all_streams client meanwhile s [] = some s
  open_all_streams client meanwhile s (vb_id ∷ vb_ids) =
      opened_or_panic (open_stream client (meanwhile vb_id s) vb_id) >>= λ s'.
      open_all_streams client meanwhile s' vb_ids

  abbrev pub observers_for : Stream → ConcurrentSwissMap ℕ Offset → ConcurrentSwissMap ℕ Observer
  observers_for s offsets =
      range offsets
        (λ vb_id offset observers. (
          store observers vb_id (
              new_observer s.mitigation_disabled s.skip_until vb_id offset.latest_seq_no
                s.collection_ids),
          true,
        ))
        (create Observer 1024)

  -- Open up to the opening of the streams: `vb_ids` is what the discovery answers, and the last
  -- argument what the checkpoint loads. Rollback mitigation is switched off on an ephemeral bucket,
  -- and otherwise begins to observe, if it is on.
  abbrev pub prepared : Stream → VbIdRange → List ℕ → Bool → Offsets → Stream
  prepared s vb_id_range vb_ids is_ephemeral (offsets, dirty_offsets, any_dirty_offset) =
      let s' : Stream = record s { mitigation_disabled = s.mitigation_disabled || is_ephemeral } in
      record s' {
        stream_finished_with_close = false;
        stream_finished_with_end_event = false;
        mitigation_observed = not s'.mitigation_disabled;
        vb_id_range = vb_id_range;
        active_streams = length vb_ids % 2 ^ 32;
        offsets = offsets;
        dirty_offsets = dirty_offsets;
        any_dirty_offset = any_dirty_offset;
        observers = some (observers_for s' offsets);
      }

  -- `opening` lists the vBuckets in the order in which their streams open. `none` is a panic.
  unfoldable pub stream_open :
      (ℕ → Offset → Option (Observer → Observer))
      → (ℕ → Stream → Stream)
      → (List ℕ → List ℕ)
      → Stream
      → List ℕ
      → Bool
      → Option Offsets
      → Option Stream
  unfolding range_of range new_observer open_all_streams
  stream_open client meanwhile opening s vb_ids is_ephemeral loaded = loaded >>= λ all.
      range_of vb_ids >>= λ vb_id_range.
      open_all_streams client meanwhile (prepared s vb_id_range vb_ids is_ephemeral all)
        (opening vb_ids)
      >>= λ s'. some (record s' { open_ = true })
