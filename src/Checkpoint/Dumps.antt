-- ===== src/Checkpoint/Dumps.antt =====
-- What Save of stream/checkpoint.go hands to the store, and what its success leaves there.
use go_dcp.Prelude.{
  ℕ, ◌≡◌, ◌≢◌, refl, sym, ap, ◌∙◌, inl, inr, Bool, true, false, Option, none, some, List, [], ◌∷◌,
  nat_comparable, arith, lookup, insert, HasDistinctKeys, Bool-cases, if◌then◌else◌, ◌>>=◌,
}
use go_dcp.Wrapper.{CsMap, ConcurrentSwissMap, load}
use go_dcp.Wrapper.Laws.{
  load-create, each, items, items-HasDistinctKeys, lookup-items, each-insert, range-each, or_load,
  lookup-range-insert, range-insert-HasDistinctKeys,
}
use go_dcp.Models.{Offset}
use go_dcp.Metadata.{Metadata}
use go_dcp.Metadata.Contract.{or_false, is_dirty, or_document, Durable}
use go_dcp.Stream.{Stream, unmark_dirty_offsets}
use go_dcp.Checkpoint.Defs.{
  Checkpoint, Log, no_need_to_save, saved_checkpoint, error_while_saving, document_of, dump_offsets,
  dump_dirty_offset, dump_dirty_offsets, finish_save, save,
}

module _ ⦃cs : CsMap ℕ⦄ where
  pub lookup-dump_offsets :
      (bucket_uuid : List ℕ) (offsets : ConcurrentSwissMap ℕ Offset) (j : ℕ)
      → lookup j (dump_offsets bucket_uuid offsets)
        ≡ or_load (document_of bucket_uuid) (load offsets j) none
  unfolding dump_offsets
  lookup-dump_offsets bucket_uuid offsets j =
      lookup-range-insert (λ k o. document_of bucket_uuid o) offsets [] j

  pub dump_offsets-HasDistinctKeys :
      (bucket_uuid : List ℕ) (offsets : ConcurrentSwissMap ℕ Offset)
      → HasDistinctKeys (dump_offsets bucket_uuid offsets)
  unfolding dump_offsets
  dump_offsets-HasDistinctKeys bucket_uuid offsets =
      range-insert-HasDistinctKeys (λ k o. document_of bucket_uuid o) offsets [] tt

  each-dump_dirty_offset :
      (l : List (ℕ × Bool)) (p : List (ℕ × Bool) × ℕ)
      → (each dump_dirty_offset l p).0 ≡ each (λ k v d. insert k v d) l p.0
  each-dump_dirty_offset [] p = refl
  each-dump_dirty_offset ((k, v) ∷ r) p = each-dump_dirty_offset r (dump_dirty_offset k v p)

  pub is_dirty-dump_dirty_offsets :
      (dirty_offsets : ConcurrentSwissMap ℕ Bool) (j : ℕ)
      → is_dirty (dump_dirty_offsets dirty_offsets).0 j ≡ or_false (load dirty_offsets j)
  unfolding dump_dirty_offsets
  is_dirty-dump_dirty_offsets m j =
      let held : (dump_dirty_offsets m).0 ≡ each (λ k v d. insert k v d) (items m) [] =
        ap (λ p. p.0) (range-each m dump_dirty_offset ([], 0))
        ∙ each-dump_dirty_offset (items m) ([], 0) in
      ground (
        arith,
        ap (λ d. lookup j d) held,
        each-insert (λ k v. v) (items m) [] j (items-HasDistinctKeys m),
        lookup-items m j,
      )

  load-unmark : (s : Stream) (j : ℕ) → load (unmark_dirty_offsets s).dirty_offsets j ≡ none
  unfolding unmark_dirty_offsets
  load-unmark s j = load-create {V = Bool} 1024 j

  pub unmark_lem :
      (s : Stream)
      → ((unmark_dirty_offsets s).any_dirty_offset ≡ false)
        × ((unmark_dirty_offsets s).offsets ≡ s.offsets)
  unfolding unmark_dirty_offsets
  unmark_lem s = (refl, refl)

  module _ (metadata : Metadata) where
    -- The two halves of a save: what it hands to the store, and what it does with the answer.
    abbrev pub written :
        Checkpoint → Stream → metadata.State → Option (Option metadata.Error × metadata.State)
    written c s state =
        metadata.save state (dump_offsets c.bucket_uuid s.offsets)
          (dump_dirty_offsets s.dirty_offsets).0 c.bucket_uuid

    pub save-clean :
        (meanwhile : Stream → Stream) (c : Checkpoint) (s : Stream) (state : metadata.State)
        → s.any_dirty_offset ≡ false
        → save metadata meanwhile c s state ≡ some (no_need_to_save, c, s, state)
    unfolding save
    save-clean meanwhile c s state clean = rw clean

    pub save-dirty :
        (meanwhile : Stream → Stream) (c : Checkpoint) (s : Stream) (state : metadata.State)
        → s.any_dirty_offset ≡ true
        → save metadata meanwhile c s state ≡ (
            written c s state >>= λ result. some (
              finish_save metadata
                (record c { offset_write = (dump_dirty_offsets s.dirty_offsets).1 })
                (meanwhile s)
                result))
    unfolding save
    save-dirty meanwhile c s state marked = rw marked

    pub save-marked :
        (meanwhile : Stream → Stream) (c c' : Checkpoint) (s s' : Stream)
        → (state state' : metadata.State) (log : Log) → s.any_dirty_offset ≡ true
        → save metadata meanwhile c s state ≡ some (log, c', s', state')
        → log ≢ no_need_to_save
    save-marked meanwhile c c' s s' state state' log marked h =
        by_answer (record c { offset_write = (dump_dirty_offsets s.dirty_offsets).1 })
          (written c s state) (sym (save-dirty meanwhile c s state marked) ∙ h)
      where
        by_answer :
            (d : Checkpoint) (r : Option (Option metadata.Error × metadata.State))
            → (r >>= λ result. some (finish_save metadata d (meanwhile s) result))
              ≡ some (log, c', s', state')
            → log ≢ no_need_to_save
        by_answer d none e none_needed = ground arith
        by_answer d (some (some err, t)) e none_needed =
            let logs : error_while_saving ≡ log = cc in
            let bad : error_while_saving ≡ no_need_to_save = logs ∙ none_needed in ground arith
        by_answer d (some (none, t)) e none_needed =
            let logs : saved_checkpoint ≡ log = cc in
            let bad : saved_checkpoint ≡ no_need_to_save = logs ∙ none_needed in ground arith

    pub save-saved :
        (meanwhile : Stream → Stream) (c c' : Checkpoint) (s s' : Stream)
        → (state state' : metadata.State)
        → save metadata meanwhile c s state ≡ some (saved_checkpoint, c', s', state')
        → (s.any_dirty_offset ≡ true)
          × (written c s state ≡ some (none, state'))
          × (s' ≡ unmark_dirty_offsets (meanwhile s))
    save-saved meanwhile c c' s s' state state' h = elim (Bool-cases s.any_dirty_offset) [
      | inr clean ↦
          let log : Log × Checkpoint × Stream × metadata.State = (no_need_to_save, c, s, state) in
          let same : some log ≡ some (saved_checkpoint, c', s', state') =
            sym (save-clean meanwhile c s state clean) ∙ h in
          let logs : no_need_to_save ≡ saved_checkpoint = cc in absurd (ground arith)
      | inl marked ↦
          let (answer, stream) =
            by_answer (record c { offset_write = (dump_dirty_offsets s.dirty_offsets).1 })
              (written c s state) (sym (save-dirty meanwhile c s state marked) ∙ h) in
          (marked, answer, stream)
    ]
      where
        by_answer :
            (d : Checkpoint) (r : Option (Option metadata.Error × metadata.State))
            → (r >>= λ result. some (finish_save metadata d (meanwhile s) result))
              ≡ some (saved_checkpoint, c', s', state')
            → (r ≡ some (none, state')) × (s' ≡ unmark_dirty_offsets (meanwhile s))
        by_answer d none e = absurd (ground arith)
        by_answer d (some (some err, t)) e =
            let logs : error_while_saving ≡ saved_checkpoint = cc in absurd (ground arith)
        by_answer d (some (none, t)) e =
            let same : t ≡ state' = cc in
            let stream : unmark_dirty_offsets (meanwhile s) ≡ s' = cc in
            (ap (λ u. some (none, u)) same, sym stream)

    -- A save that logs success leaves in the store, for each vBucket whose dirty mark was set when
    -- it began, the offset that the stream had for it then, where it had one; for every other
    -- vBucket the store has what it had. The stream then has no dirty mark, though its offsets may
    -- have moved on. The store is any that meets the contract.
    pub kept-saved :
        (durable : Durable metadata) (meanwhile : Stream → Stream) (c c' : Checkpoint)
        → (s s' : Stream) (state state' : metadata.State)
        → save metadata meanwhile c s state ≡ some (saved_checkpoint, c', s', state')
        → (j : ℕ)
        → (durable.kept state' j ≡ (
            if or_false (load s.dirty_offsets j)
            then or_document
                (or_load (document_of c.bucket_uuid) (load s.offsets j) none)
                (durable.kept state j)
            else durable.kept state j))
          × (load s'.dirty_offsets j ≡ none)
          × (s'.any_dirty_offset ≡ false)
          × (s'.offsets ≡ (meanwhile s).offsets)
    kept-saved durable meanwhile c c' s s' state state' h j =
        let (marked, answer, stream) = save-saved meanwhile c c' s s' state state' h in
        let kept =
          durable.kept-save state state' (dump_offsets c.bucket_uuid s.offsets)
            (dump_dirty_offsets s.dirty_offsets).0 c.bucket_uuid
            (dump_offsets-HasDistinctKeys c.bucket_uuid s.offsets) answer j in
        (
          rw
              (
                ← is_dirty-dump_dirty_offsets s.dirty_offsets j,
                ← lookup-dump_offsets c.bucket_uuid s.offsets j,
              )
              kept,
          rw stream (load-unmark (meanwhile s) j),
          rw stream (unmark_lem (meanwhile s)).0,
          rw stream (unmark_lem (meanwhile s)).1,
        )
