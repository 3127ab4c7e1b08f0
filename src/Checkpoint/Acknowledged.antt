-- ===== src/Checkpoint/Acknowledged.antt =====
-- Whether what listeners acknowledge reaches the store: stream/stream.go and stream/checkpoint.go
-- together.
use go_dcp.Prelude.{
  ℕ, ◌≤◌, ◌≡◌, refl, ap, ◌∙◌, ◌⊎◌, inl, inr, Bool, true, false, none, some, List, [], ◌∷◌,
  nat_comparable, arith, ==_iff, Bool-cases,
}
use go_dcp.Wrapper.{CsMap, load}
use go_dcp.Wrapper.Laws.{load-create}
use go_dcp.Helpers.{is_metadata}
use go_dcp.Models.{
  Offset, InternalItem, Event, in_range, dcp_snapshot_marker, dcp_mutation, dcp_deletion,
  dcp_expiration, dcp_collection_creation, dcp_collection_deletion, dcp_collection_flush,
  dcp_collection_modification, dcp_scope_creation, dcp_scope_deletion, dcp_seq_no_advanced,
  dcp_oso_snapshot,
}
use go_dcp.Metadata.{Metadata}
use go_dcp.Metadata.Contract.{Durable}
use go_dcp.Stream.{Stream, set_offset, wait_and_forward, unmark_dirty_offsets}
use go_dcp.Stream.Offsets.{accepts, dirty-set_offset, range-set_offset}
use go_dcp.Stream.Runs.{Step, arrives, acknowledges, step, run}
use go_dcp.Stream.Progress.{offset_is_furthest}
use go_dcp.Checkpoint.Defs.{
  Checkpoint, Log, no_need_to_save, saved_checkpoint, error_while_saving, document_of, save,
}
use go_dcp.Checkpoint.Dumps.{kept-saved, unmark_lem, save-clean, save-marked, save-saved}

module _ ⦃cs : CsMap ℕ⦄ where
  -- The next save will write the offset of the vBucket.
  abbrev pub IsMarked : Stream → ℕ → Type 0
  IsMarked s j = (s.any_dirty_offset ≡ true) × (load s.dirty_offsets j ≡ some true)

  set_offset-IsMarked :
      (s : Stream) (vb_id : ℕ) (o : Offset) (dirty : Bool) (j : ℕ)
      → IsMarked s j
      → IsMarked (set_offset s vb_id o dirty).0 j
  set_offset-IsMarked s vb_id o dirty j h = (
    (range-set_offset s vb_id o dirty).1 ∙ h.0,
    ground (arith, dirty-set_offset s vb_id o dirty j),
  )

  item-IsMarked :
      (s : Stream) (e : Event) (v : InternalItem) (j : ℕ)
      → IsMarked s j
      → IsMarked (wait_and_forward s e v).0 j
  unfolding wait_and_forward
  item-IsMarked s e v j h = elim (Bool-cases (is_metadata (some v.item.key))) [
    | inl own ↦ rw own (set_offset-IsMarked s v.item.vb_id v.offset false j h)
    | inr other ↦ rw other h
  ]

  step-IsMarked : (s : Stream) (x : Step) (j : ℕ) → IsMarked s j → IsMarked (step s x) j
  unfolding step
  step-IsMarked s (arrives (dcp_mutation v)) j h = item-IsMarked s (dcp_mutation v) v j h
  step-IsMarked s (arrives (dcp_deletion v)) j h = item-IsMarked s (dcp_deletion v) v j h
  step-IsMarked s (arrives (dcp_expiration v)) j h = item-IsMarked s (dcp_expiration v) v j h
  step-IsMarked s (arrives (dcp_seq_no_advanced v)) j h =
      set_offset-IsMarked s v.advance.vb_id v.offset true j h
  step-IsMarked s (arrives (dcp_collection_creation v)) j h =
      set_offset-IsMarked s v.change.vb_id v.offset true j h
  step-IsMarked s (arrives (dcp_collection_deletion v)) j h =
      set_offset-IsMarked s v.change.vb_id v.offset true j h
  step-IsMarked s (arrives (dcp_collection_flush v)) j h =
      set_offset-IsMarked s v.change.vb_id v.offset true j h
  step-IsMarked s (arrives (dcp_collection_modification v)) j h =
      set_offset-IsMarked s v.change.vb_id v.offset true j h
  step-IsMarked s (arrives (dcp_scope_creation v)) j h =
      set_offset-IsMarked s v.advance.vb_id v.offset true j h
  step-IsMarked s (arrives (dcp_scope_deletion v)) j h =
      set_offset-IsMarked s v.advance.vb_id v.offset true j h
  step-IsMarked s (arrives (dcp_snapshot_marker v)) j h = h
  step-IsMarked s (arrives (dcp_oso_snapshot v)) j h = h
  step-IsMarked s (acknowledges vb_id offset) j h =
      (refl, (set_offset-IsMarked s vb_id offset true j h).1)

  run-IsMarked : (s : Stream) (xs : List Step) (j : ℕ) → IsMarked s j → IsMarked (run s xs) j
  unfolding run
  run-IsMarked s [] j h = h
  run-IsMarked s (x ∷ xs) j h = run-IsMarked (step s x) xs j (step-IsMarked s x j h)

  ack-IsMarked :
      (s : Stream) (j : ℕ) (o : Offset)
      → accepts s j o ≡ true
      → IsMarked (step s (acknowledges j o)) j
  unfolding step
  ack-IsMarked s j o taken =
      (refl, ground (arith, dirty-set_offset s j o true j, (==_iff j j).1 refl))

  marks_run :
      (s : Stream) (j : ℕ) (o : Offset) (xs : List Step)
      → IsMarked (run (step s (acknowledges j o)) xs) j
      → IsMarked (run s (acknowledges j o ∷ xs)) j
  unfolding run
  marks_run s j o xs h = h

  Log-cases :
      (log : Log) → (log ≡ no_need_to_save) ⊎ (log ≡ saved_checkpoint) ⊎ (log ≡ error_while_saving)
  Log-cases no_need_to_save = inl refl
  Log-cases saved_checkpoint = inr (inl refl)
  Log-cases error_while_saving = inr (inr refl)

  unmark-load : (s : Stream) (j : ℕ) → load (unmark_dirty_offsets s).dirty_offsets j ≡ none
  unfolding unmark_dirty_offsets
  unmark-load s j = load-create {V = Bool} 1024 j

  module _ (metadata : Metadata) where
    -- An offset that a listener acknowledges for a vBucket of the stream's range, and that is not
    -- behind the offset kept for it, is in the store after the next save, whatever events and
    -- acknowledgements come between the two: that save finds something to write, and it logs an
    -- error, or it logs success and the document kept for the vBucket is the one of the offset
    -- that the stream had when the save began, whose sequence number is that of the acknowledged
    -- offset or further on. The store is any that meets the contract.
    pub acknowledged_is_kept :
        (durable : Durable metadata) (meanwhile : Stream → Stream) (c c' : Checkpoint)
        → (s s' : Stream) (state state' : metadata.State) (log : Log)
        → (j : ℕ) (o : Offset) (xs : List Step) → accepts s j o ≡ true
        → save metadata meanwhile c (run s (acknowledges j o ∷ xs)) state
          ≡ some (log, c', s', state')
        → (log ≡ error_while_saving)
          ⊎ ((log ≡ saved_checkpoint)
              × ((d : Offset) × (load (run s (acknowledges j o ∷ xs)).offsets j ≡ some d)
                  × (durable.kept state' j ≡ some (document_of c.bucket_uuid d))
                  × (o.seq_no ≤ d.seq_no)))
    acknowledged_is_kept durable meanwhile c c' s s' state state' log j o xs taken h =
        let final = run s (acknowledges j o ∷ xs) in
        let marked : IsMarked final j =
          marks_run s j o xs
            (run-IsMarked (step s (acknowledges j o)) xs j (ack-IsMarked s j o taken)) in
        let inside : in_range s.vb_id_range j ≡ true = ground arith in
        let (d, at, le, source) =
          offset_is_furthest s (acknowledges j o ∷ xs) j o inside (inr (inl (refl, refl))) in
        elim (Log-cases log) [
          | inl idle ↦
              absurd (save-marked metadata meanwhile c c' final s' state state' log marked.0 h idle)
          | inr (inl ok) ↦
              let (kept, unmarked, clean, moved) =
                kept-saved metadata durable meanwhile c c' final s' state state'
                  (h ∙ ap (λ l. some (l, c', s', state')) ok) j in
              inr (ok, (d, at, ground (arith, kept, at, marked.1), le))
          | inr (inr failed) ↦ inl failed
        ]

    -- After a save that logs success, the next save writes nothing unless an offset is acknowledged
    -- after the first has ended: what was acknowledged while the documents were being written has
    -- moved the offsets of the stream, and its dirty mark is gone, like all others.
    pub save-save :
        (meanwhile again : Stream → Stream) (c c' d : Checkpoint)
        → (s s' : Stream) (state state' : metadata.State)
        → save metadata meanwhile c s state ≡ some (saved_checkpoint, c', s', state')
        → (save metadata again d s' state' ≡ some (no_need_to_save, d, s', state'))
          × (s'.offsets ≡ (meanwhile s).offsets)
          × (s'.any_dirty_offset ≡ false)
          × ((j : ℕ) → load s'.dirty_offsets j ≡ none)
    save-save meanwhile again c c' d s s' state state' h =
        let (marked, answer, stream) = save-saved metadata meanwhile c c' s s' state state' h in
        (
          save-clean metadata again d s' state' (rw stream (unmark_lem (meanwhile s)).0),
          rw stream (unmark_lem (meanwhile s)).1,
          rw stream (unmark_lem (meanwhile s)).0,
          λ j. ap (λ (t : Stream). load t.dirty_offsets j) stream ∙ unmark-load (meanwhile s) j,
        )
