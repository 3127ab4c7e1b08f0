-- ===== src/Stream/Runs.antt =====
-- Runs of events and acknowledgements of stream/stream.go, and what each writes to the offsets.
use go_dcp.Prelude.{
  ℕ, ◌≡◌, refl, inl, inr, Bool, true, false, ◌&&◌, Option, none, some, List, [], ◌∷◌,
  nat_comparable, ◌==◌, Bool-cases, if◌then◌else◌,
}
use go_dcp.Wrapper.{CsMap, load}
use go_dcp.Helpers.{is_metadata}
use go_dcp.Models.{
  Offset, InternalItem, Event, dcp_snapshot_marker, dcp_mutation, dcp_deletion, dcp_expiration,
  dcp_collection_creation, dcp_collection_deletion, dcp_collection_flush,
  dcp_collection_modification, dcp_scope_creation, dcp_scope_deletion, dcp_seq_no_advanced,
  dcp_oso_snapshot,
}
use go_dcp.Stream.State.{Stream, ack, wait_and_forward, listen}
use go_dcp.Stream.Offsets.{accepts, offsets-set_offset, range-set_offset}

-- An event arrives from an observer, or a listener acknowledges an offset that it was given.
pub data Step : Type 0 where
  arrives : Event → Step
  acknowledges : ℕ → Offset → Step

-- An offset that a step hands to setOffset.
pub record Write : Type 0 where
  pub vb_id : ℕ
  pub offset : Offset
  pub dirty : Bool

abbrev item_write : InternalItem → Option Write
item_write v =
    if is_metadata (some v.item.key)
    then some (record { vb_id = v.item.vb_id; offset = v.offset; dirty = false })
    else none

-- An item with a key of the program's own moves the offset when it arrives, any other item only
-- when it is acknowledged; the events of the system move it when they arrive.
abbrev pub write_of : Step → Option Write
write_of (arrives (dcp_mutation v)) = item_write v
write_of (arrives (dcp_deletion v)) = item_write v
write_of (arrives (dcp_expiration v)) = item_write v
write_of (arrives (dcp_seq_no_advanced v)) =
    some (record { vb_id = v.advance.vb_id; offset = v.offset; dirty = true })
write_of (arrives (dcp_collection_creation v)) =
    some (record { vb_id = v.change.vb_id; offset = v.offset; dirty = true })
write_of (arrives (dcp_collection_deletion v)) =
    some (record { vb_id = v.change.vb_id; offset = v.offset; dirty = true })
write_of (arrives (dcp_collection_flush v)) =
    some (record { vb_id = v.change.vb_id; offset = v.offset; dirty = true })
write_of (arrives (dcp_collection_modification v)) =
    some (record { vb_id = v.change.vb_id; offset = v.offset; dirty = true })
write_of (arrives (dcp_scope_creation v)) =
    some (record { vb_id = v.advance.vb_id; offset = v.offset; dirty = true })
write_of (arrives (dcp_scope_deletion v)) =
    some (record { vb_id = v.advance.vb_id; offset = v.offset; dirty = true })
write_of (arrives (dcp_snapshot_marker v)) = none
write_of (arrives (dcp_oso_snapshot v)) = none
write_of (acknowledges vb_id offset) =
    some (record { vb_id = vb_id; offset = offset; dirty = true })

module _ ⦃cs : CsMap ℕ⦄ where
  unfoldable pub step : Stream → Step → Stream
  unfolding listen ack
  step s (arrives e) = (listen s e).0
  step s (acknowledges vb_id offset) = (ack s vb_id offset).0

  unfoldable pub run : Stream → List Step → Stream
  unfolding step
  run s [] = s
  run s (x ∷ xs) = run (step s x) xs

  abbrev pub written : Stream → Option Write → ℕ → Option Offset
  written s none j = load s.offsets j
  written s (some w) j =
      if accepts s w.vb_id w.offset && w.vb_id == j then some w.offset else load s.offsets j

  item-step :
      (s : Stream) (e : Event) (v : InternalItem) (j : ℕ)
      → load (wait_and_forward s e v).0.offsets j ≡ written s (item_write v) j
  unfolding wait_and_forward
  item-step s e v j = elim (Bool-cases (is_metadata (some v.item.key))) [
    | inl own ↦ rw own (offsets-set_offset s v.item.vb_id v.offset false j)
    | inr other ↦ rw other
  ]

  pub offsets-step :
      (s : Stream) (x : Step) (j : ℕ) → load (step s x).offsets j ≡ written s (write_of x) j
  unfolding step
  offsets-step s (arrives (dcp_mutation v)) j = item-step s (dcp_mutation v) v j
  offsets-step s (arrives (dcp_deletion v)) j = item-step s (dcp_deletion v) v j
  offsets-step s (arrives (dcp_expiration v)) j = item-step s (dcp_expiration v) v j
  offsets-step s (arrives (dcp_seq_no_advanced v)) j =
      offsets-set_offset s v.advance.vb_id v.offset true j
  offsets-step s (arrives (dcp_collection_creation v)) j =
      offsets-set_offset s v.change.vb_id v.offset true j
  offsets-step s (arrives (dcp_collection_deletion v)) j =
      offsets-set_offset s v.change.vb_id v.offset true j
  offsets-step s (arrives (dcp_collection_flush v)) j =
      offsets-set_offset s v.change.vb_id v.offset true j
  offsets-step s (arrives (dcp_collection_modification v)) j =
      offsets-set_offset s v.change.vb_id v.offset true j
  offsets-step s (arrives (dcp_scope_creation v)) j =
      offsets-set_offset s v.advance.vb_id v.offset true j
  offsets-step s (arrives (dcp_scope_deletion v)) j =
      offsets-set_offset s v.advance.vb_id v.offset true j
  offsets-step s (arrives (dcp_snapshot_marker v)) j = refl
  offsets-step s (arrives (dcp_oso_snapshot v)) j = refl
  offsets-step s (acknowledges vb_id offset) j = offsets-set_offset s vb_id offset true j

  item-range :
      (s : Stream) (e : Event) (v : InternalItem)
      → (wait_and_forward s e v).0.vb_id_range ≡ s.vb_id_range
  unfolding wait_and_forward
  item-range s e v = elim (Bool-cases (is_metadata (some v.item.key))) [
    | inl own ↦ rw own ((range-set_offset s v.item.vb_id v.offset false).0)
    | inr other ↦ rw other
  ]

  pub range-step : (s : Stream) (x : Step) → (step s x).vb_id_range ≡ s.vb_id_range
  unfolding step
  range-step s (arrives (dcp_mutation v)) = item-range s (dcp_mutation v) v
  range-step s (arrives (dcp_deletion v)) = item-range s (dcp_deletion v) v
  range-step s (arrives (dcp_expiration v)) = item-range s (dcp_expiration v) v
  range-step s (arrives (dcp_seq_no_advanced v)) =
      (range-set_offset s v.advance.vb_id v.offset true).0
  range-step s (arrives (dcp_collection_creation v)) =
      (range-set_offset s v.change.vb_id v.offset true).0
  range-step s (arrives (dcp_collection_deletion v)) =
      (range-set_offset s v.change.vb_id v.offset true).0
  range-step s (arrives (dcp_collection_flush v)) =
      (range-set_offset s v.change.vb_id v.offset true).0
  range-step s (arrives (dcp_collection_modification v)) =
      (range-set_offset s v.change.vb_id v.offset true).0
  range-step s (arrives (dcp_scope_creation v)) =
      (range-set_offset s v.advance.vb_id v.offset true).0
  range-step s (arrives (dcp_scope_deletion v)) =
      (range-set_offset s v.advance.vb_id v.offset true).0
  range-step s (arrives (dcp_snapshot_marker v)) = refl
  range-step s (arrives (dcp_oso_snapshot v)) = refl
  range-step s (acknowledges vb_id offset) = (range-set_offset s vb_id offset true).0
