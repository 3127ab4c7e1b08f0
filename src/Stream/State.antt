-- ===== src/Stream/State.antt =====
-- stream/stream.go: the state of the stream, setOffset, waitAndForward and listen.
use go_dcp.Prelude.{
  ℕ, Bool, true, false, Option, none, some, List, [], ◌∷◌, String, nat_comparable, ltb,
  if◌then◌else◌,
}
use go_dcp.Wrapper.{CsMap, ConcurrentSwissMap, create, load, store, store_if}
use go_dcp.Helpers.{is_metadata}
use go_dcp.Models.{
  Offset, VbIdRange, in_range, InternalItem, Event, dcp_snapshot_marker, dcp_mutation, dcp_deletion,
  dcp_expiration, dcp_collection_creation, dcp_collection_deletion, dcp_collection_flush,
  dcp_collection_modification, dcp_scope_creation, dcp_scope_deletion, dcp_seq_no_advanced,
  dcp_oso_snapshot,
}
use go_dcp.Observer.{Observer}

-- What the timer of a rebalance will call: `s.rebalance` or `s.Rebalance`.
pub data Target : Type 0 where
  finishes_rebalance starts_rebalance : Target

pub data Timer : Type 0 where
  armed : Target → Timer
  fired : Timer

-- streamEndNotSupportedData; `queue` counts what lies in its channel, which has room for one.
pub record StreamEndNotSupportedData : Type 0 where
  pub queue : ℕ
  pub ending : Bool

-- The channels finishStreamWith…Ch have room for one; `stop_closed` says whether stopCh is closed.
-- The collaborators (client, consumer, checkpoint, event handler) are not kept: what is called on
-- them is in the results of the methods. Latencies are left out. The number of active streams is
-- an int32, kept as its bit pattern. `mitigation_observed` says whether the goroutine of the rollback
-- mitigation runs that observes persisted numbers, and that its Stop waits for.
pub record Stream ⦃cs : CsMap ℕ⦄ : Type 0 where
  pub vb_id_range : VbIdRange
  pub offsets : ConcurrentSwissMap ℕ Offset
  pub dirty_offsets : ConcurrentSwissMap ℕ Bool
  pub any_dirty_offset : Bool
  pub observers : Option (ConcurrentSwissMap ℕ Observer)
  pub collection_ids : List (ℕ × String)
  pub stream_end_not_supported : Option StreamEndNotSupportedData
  pub mitigation_disabled : Bool
  pub mitigation_observed : Bool
  pub skip_until : Option ℕ
  pub rebalance_count : ℕ
  pub rebalance_timer : Option Timer
  pub rebalance_locked : Bool
  pub active_streams : ℕ
  pub balancing : Bool
  pub close_with_cancel : Bool
  pub open_ : Bool
  pub stream_finished_with_close : Bool
  pub stream_finished_with_end_event : Bool
  pub finish_with_close_ch : ℕ
  pub finish_with_end_event_ch : ℕ
  pub stop_closed : Bool

-- What the stream calls on its consumer: TrackOffset, and ConsumeEvent with the event of the
-- context. The context's Ack is `ack` below, at the vBucket and the offset that stand beside it.
pub data Call : Type 0 where
  track_offset : ℕ → Offset → Call
  consume_event : Event → ℕ → Offset → Call

abbrev pub is_stale : Option Offset → Offset → Bool
is_stale none offset = false
is_stale (some current) offset = ltb offset.seq_no current.seq_no

-- The condition that setOffset gives to StoreIf.
abbrev pub mark_dirty : Option Bool → Option Bool
mark_dirty none = some true
mark_dirty (some false) = some true
mark_dirty (some true) = none

module _ ⦃cs : CsMap ℕ⦄ where
  unfoldable pub set_offset : Stream → ℕ → Offset → Bool → Stream × List Call
  set_offset s vb_id offset dirty =
      let stored : Stream = record s { offsets = store s.offsets vb_id offset } in
      let marked : Stream = record s {
        offsets = store s.offsets vb_id offset;
        dirty_offsets = store_if s.dirty_offsets vb_id mark_dirty;
      } in
      if in_range s.vb_id_range vb_id
      then if is_stale (load s.offsets vb_id) offset
        then (s, [])
        else (if dirty then marked else stored, track_offset vb_id offset ∷ [])
      else (s, [])

  -- The closure that a listener gets as `Ack`.
  unfoldable pub ack : Stream → ℕ → Offset → Stream × List Call
  unfolding set_offset
  ack s vb_id offset =
      let (s', calls) = set_offset s vb_id offset true in
      (record s' { any_dirty_offset = true }, calls)

  unfoldable pub wait_and_forward : Stream → Event → InternalItem → Stream × List Call
  unfolding set_offset is_metadata
  wait_and_forward s payload v =
      if is_metadata (some v.item.key)
      then set_offset s v.item.vb_id v.offset false
      else (s, consume_event payload v.item.vb_id v.offset ∷ [])

  unfoldable pub listen : Stream → Event → Stream × List Call
  unfolding wait_and_forward
  listen s (dcp_mutation v) = wait_and_forward s (dcp_mutation v) v
  listen s (dcp_deletion v) = wait_and_forward s (dcp_deletion v) v
  listen s (dcp_expiration v) = wait_and_forward s (dcp_expiration v) v
  listen s (dcp_seq_no_advanced v) = set_offset s v.advance.vb_id v.offset true
  listen s (dcp_collection_creation v) = set_offset s v.change.vb_id v.offset true
  listen s (dcp_collection_deletion v) = set_offset s v.change.vb_id v.offset true
  listen s (dcp_collection_flush v) = set_offset s v.change.vb_id v.offset true
  listen s (dcp_scope_creation v) = set_offset s v.advance.vb_id v.offset true
  listen s (dcp_scope_deletion v) = set_offset s v.advance.vb_id v.offset true
  listen s (dcp_collection_modification v) = set_offset s v.change.vb_id v.offset true
  listen s (dcp_snapshot_marker v) = (s, [])
  listen s (dcp_oso_snapshot v) = (s, [])

  -- The offsets, the dirty offsets, and whether there is any dirty offset.
  abbrev pub get_offsets : Stream → ConcurrentSwissMap ℕ Offset × ConcurrentSwissMap ℕ Bool × Bool
  get_offsets s = (s.offsets, s.dirty_offsets, s.any_dirty_offset)

  unfoldable pub unmark_dirty_offsets : Stream → Stream
  unmark_dirty_offsets s = record s { any_dirty_offset = false; dirty_offsets = create Bool 1024 }
