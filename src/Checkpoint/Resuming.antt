-- ===== src/Checkpoint/Resuming.antt =====
-- Where Load of stream/checkpoint.go lets each vBucket go on.
use go_dcp.Prelude.{
  ℕ, ◌≤◌, ◌≡◌, ◌⊎◌, refl, sym, ap, subst, ◌∙◌, inl, inr, Bool, true, false, Option, none, some,
  List, [], ◌∷◌, nat_comparable, string_comparable, contains, arith, Bool-cases, Option-cases, ltb,
  ltb→lt_false, ◌>>=◌,
}
use go_dcp.Wrapper.{CsMap, ConcurrentSwissMap, load}
use go_dcp.Models.{Offset, CheckpointDocument}
use go_dcp.Metadata.{Metadata, Loaded, loaded, failed, panicked}
use go_dcp.Metadata.Contract.{Durable, or_empty, any_kept}
use go_dcp.Stream.{Stream}
use go_dcp.Checkpoint.Defs.{
  Checkpoint, Offsets, Options, saved_checkpoint, document_of, initialize_latest_seq_no, or_zero,
  first_uuid, save, load_offset, keep_offset, latest_offset, keep_latest, load_dump, dump_of,
  load_checkpoint, checkpoint_auto_reset_type_latest,
}
use go_dcp.Checkpoint.Dumps.{kept-saved}
use go_dcp.Checkpoint.Walks.{
  walk_documents-offset, load_dump-latest, keep_latest-stores, keep_offset-stores,
  kept_or_not_latest,
}

module _ ⦃cs : CsMap ℕ⦄ where
  -- An offset that a checkpoint gives.
  abbrev pub resumed : Options → ℕ → CheckpointDocument → Offset
  resumed config latest doc = record {
    snapshot = doc.checkpoint.snapshot;
    vb_uuid = doc.checkpoint.vb_uuid;
    seq_no = doc.checkpoint.seq_no;
    latest_seq_no = initialize_latest_seq_no config latest;
  }

  abbrev latest_at : Options → ℕ → ℕ → Offset
  latest_at config uuid current = record {
    snapshot = record { start_seq_no = current; end_seq_no = current };
    vb_uuid = uuid;
    seq_no = current;
    latest_seq_no = initialize_latest_seq_no config current;
  }

  load_offset_lem :
      (seq_no_map : ConcurrentSwissMap ℕ ℕ) (config : Options) (j : ℕ) (doc : CheckpointDocument)
      → (o : Offset) → load_offset seq_no_map config j doc ≡ some o
      → (doc.checkpoint.seq_no ≤ or_zero (load seq_no_map j))
        × (o ≡ resumed config (or_zero (load seq_no_map j)) doc)
  load_offset_lem seq_no_map config j doc o h =
      elim (Bool-cases (ltb (or_zero (load seq_no_map j)) doc.checkpoint.seq_no)) [
        | inl beyond ↦ let bad : none ≡ some o = sym (rw beyond) ∙ h in absurd (ground arith)
        | inr within ↦
            let same : some (resumed config (or_zero (load seq_no_map j)) doc) ≡ some o =
              sym (rw within) ∙ h in
            let is : resumed config (or_zero (load seq_no_map j)) doc ≡ o = cc in
            (
              omega
                  (arith, ltb→lt_false (or_zero (load seq_no_map j)) doc.checkpoint.seq_no within),
              sym is,
            )
      ]

  module _ (metadata : Metadata) where
    load_checkpoint-dump :
        (c : Checkpoint) (seq_no_map : ConcurrentSwissMap ℕ ℕ) (logs : ℕ → Option (List ℕ))
        → (state : metadata.State) (r : Offsets)
        → load_checkpoint metadata c (some seq_no_map) logs state ≡ some r
        → (dump : ConcurrentSwissMap ℕ CheckpointDocument) × (exist : Bool) × (metadata.load state
              c.vb_ids c.bucket_uuid
            ≡ loaded dump exist)
          × (load_dump seq_no_map c logs dump exist ≡ some r)
    unfolding load_checkpoint
    load_checkpoint-dump c seq_no_map logs state r h =
        by_loaded (metadata.load state c.vb_ids c.bucket_uuid) refl h
      where
        by_loaded :
            (l : Loaded metadata.Error)
            → metadata.load state c.vb_ids c.bucket_uuid ≡ l
            → (dump_of metadata l >>= λ (dump, exist). load_dump seq_no_map c logs dump exist)
              ≡ some r
            → (dump : ConcurrentSwissMap ℕ CheckpointDocument) × (exist : Bool) × (metadata.load
                  state c.vb_ids c.bucket_uuid
                ≡ loaded dump exist)
              × (load_dump seq_no_map c logs dump exist ≡ some r)
        by_loaded (loaded dump exist) e g = (dump, exist, e, g)
        by_loaded (failed err) e g = absurd (ground arith)
        by_loaded panicked e g = absurd (ground arith)

  any_kept-contains :
      (kept : ℕ → Option CheckpointDocument) (vs : List ℕ) (j : ℕ) (doc : CheckpointDocument)
      → contains j vs ≡ true
      → kept j ≡ some doc
      → any_kept kept vs ≡ true
  any_kept-contains kept [] j doc inside held = absurd (ground arith)
  any_kept-contains kept (v ∷ vs) j doc inside held =
      ground (arith, any_kept-contains kept vs j doc, held)

  document_of_lem :
      (bucket_uuid : List ℕ) (o : Offset)
      → ((document_of bucket_uuid o).checkpoint.seq_no ≡ o.seq_no)
        × ((document_of bucket_uuid o).checkpoint.vb_uuid ≡ o.vb_uuid)
        × ((document_of bucket_uuid o).checkpoint.snapshot ≡ o.snapshot)
  unfolding document_of
  document_of_lem bucket_uuid o = (refl, refl, refl)

  latest_offset-seq_no :
      (seq_no_map : ConcurrentSwissMap ℕ ℕ) (config : Options) (logs : ℕ → Option (List ℕ))
      → (j : ℕ) (o : Offset) → latest_offset seq_no_map config logs j ≡ some o
      → o.seq_no ≡ or_zero (load seq_no_map j)
  latest_offset-seq_no seq_no_map config logs j o h =
      elim (Option-cases (first_uuid seq_no_map (logs j))) [
        | inl panics ↦ let bad : none ≡ some o = sym (rw panics) ∙ h in absurd (ground arith)
        | inr (uuid, first) ↦
            let same : some (latest_at config uuid (or_zero (load seq_no_map j))) ≡ some o =
              sym (rw first) ∙ h in
            let is : latest_at config uuid (or_zero (load seq_no_map j)) ≡ o = cc in
            sym (ap (λ (e : Offset). e.seq_no) is)
      ]

  module _ (metadata : Metadata) where
    -- A load that does not panic lets a vBucket go on where its checkpoint says: when a checkpoint
    -- is kept for any vBucket asked for, or the program is not set to start at the latest, the
    -- offset of each vBucket asked for is the one in its document, or the very beginning where no
    -- document is kept for it, and is not beyond the last sequence number that the server has for
    -- the vBucket. The store is any that meets the contract.
    pub load-resumes :
        (durable : Durable metadata) (c : Checkpoint) (seq_no_map : ConcurrentSwissMap ℕ ℕ)
        → (logs : ℕ → Option (List ℕ)) (state : metadata.State) (r : Offsets) (j : ℕ)
        → (any_kept (durable.kept state) c.vb_ids ≡ true)
          ⊎ (string_comparable.beq c.config.auto_reset checkpoint_auto_reset_type_latest ≡ false)
        → contains j c.vb_ids ≡ true
        → load_checkpoint metadata c (some seq_no_map) logs state ≡ some r
        → ((or_empty c.bucket_uuid (durable.kept state j)).checkpoint.seq_no
            ≤ or_zero (load seq_no_map j))
          × (load r.0 j
              ≡ some (
                  resumed c.config
                    (or_zero (load seq_no_map j))
                    (or_empty c.bucket_uuid (durable.kept state j))))
    load-resumes durable c seq_no_map logs state r j way inside h =
        let (dump, exist, loads, walks) =
          load_checkpoint-dump metadata c seq_no_map logs state r h in
        let (documents, exists) = durable.kept-load state c.vb_ids c.bucket_uuid dump exist loads in
        let doc = or_empty c.bucket_uuid (durable.kept state j) in
        let held : load dump j ≡ some doc = ground (arith, documents j, inside) in
        let way' : (exist ≡ true)
            ⊎ (string_comparable.beq c.config.auto_reset checkpoint_auto_reset_type_latest
                ≡ false) =
          elim way [ inl kept ↦ inl (exists ∙ kept) | inr not_latest ↦ inr not_latest ] in
        let walk = sym (kept_or_not_latest seq_no_map c logs dump exist way') ∙ walks in
        let (o, taken, stored) =
          walk_documents-offset (load_offset seq_no_map c.config) keep_offset keep_offset-stores
            dump r walk j doc held in
        let (bound, is) = load_offset_lem seq_no_map c.config j doc o taken in
        (bound, stored ∙ ap some is)

    -- When no checkpoint is kept for any vBucket asked for and the program is set to start at the
    -- latest, a load that does not panic lets each of them go on at the last sequence number that
    -- the server has for it, in the history that comes first in its fail-over log.
    pub load-latest :
        (durable : Durable metadata) (c : Checkpoint) (seq_no_map : ConcurrentSwissMap ℕ ℕ)
        → (logs : ℕ → Option (List ℕ)) (state : metadata.State) (r : Offsets) (j : ℕ)
        → any_kept (durable.kept state) c.vb_ids ≡ false
        → string_comparable.beq c.config.auto_reset checkpoint_auto_reset_type_latest ≡ true
        → contains j c.vb_ids ≡ true
        → load_checkpoint metadata c (some seq_no_map) logs state ≡ some r
        → (o : Offset) × (load r.0 j ≡ some o)
          × (latest_offset seq_no_map c.config logs j ≡ some o)
          × (o.seq_no ≡ or_zero (load seq_no_map j))
    load-latest durable c seq_no_map logs state r j nothing latest inside h =
        let (dump, exist, loads, walks) =
          load_checkpoint-dump metadata c seq_no_map logs state r h in
        let (documents, exists) = durable.kept-load state c.vb_ids c.bucket_uuid dump exist loads in
        let doc = or_empty c.bucket_uuid (durable.kept state j) in
        let held : load dump j ≡ some doc = ground (arith, documents j, inside) in
        let walk =
          sym (load_dump-latest seq_no_map c logs dump latest)
          ∙ ap (load_dump seq_no_map c logs dump) (sym (exists ∙ nothing))
          ∙ walks in
        let (o, taken, stored) =
          walk_documents-offset (λ k d. latest_offset seq_no_map c.config logs k)
            (keep_latest seq_no_map) (keep_latest-stores seq_no_map) dump r walk j doc held in
        (o, stored, taken, latest_offset-seq_no seq_no_map c.config logs j o taken)

    -- What a save wrote, a load gives back: after a save that logs success, a load that does not
    -- panic lets each vBucket asked for whose dirty mark was set when the save began go on at the offset that the stream had for it then, with the same snapshot and the same
    -- history. The store is any that meets the contract, and the load may be that of another checkpoint.
    pub load-save :
        (durable : Durable metadata) (meanwhile : Stream → Stream) (c c' d : Checkpoint)
        → (s s' : Stream) (state state' : metadata.State)
        → (seq_no_map : ConcurrentSwissMap ℕ ℕ) (logs : ℕ → Option (List ℕ)) (r : Offsets)
        → (j : ℕ) (o : Offset)
        → save metadata meanwhile c s state ≡ some (saved_checkpoint, c', s', state')
        → load s.dirty_offsets j ≡ some true
        → load s.offsets j ≡ some o
        → contains j d.vb_ids ≡ true
        → load_checkpoint metadata d (some seq_no_map) logs state' ≡ some r
        → (e : Offset) × (load r.0 j ≡ some e)
          × (e.seq_no ≡ o.seq_no)
          × (e.vb_uuid ≡ o.vb_uuid)
          × (e.snapshot ≡ o.snapshot)
          × (o.seq_no ≤ or_zero (load seq_no_map j))
    load-save durable meanwhile c c' d s s' state state' seq_no_map logs r j o saves marked at
          inside h =
        let (kept, unmarked, clean, moved) =
          kept-saved metadata durable meanwhile c c' s s' state state' saves j in
        let held : durable.kept state' j ≡ some (document_of c.bucket_uuid o) =
          ground (arith, kept, marked, at) in
        let (bound, resumes) =
          load-resumes durable d seq_no_map logs state' r j
            (inl (
              any_kept-contains (durable.kept state') d.vb_ids j (document_of c.bucket_uuid o)
                inside held))
            inside h in
        let latest = or_zero (load seq_no_map j) in
        let (number, history, snapshot) = document_of_lem c.bucket_uuid o in
        let reaches : (document_of c.bucket_uuid o).checkpoint.seq_no ≤ latest =
          subst (λ k. (or_empty d.bucket_uuid k).checkpoint.seq_no ≤ latest) held bound in
        (
          resumed d.config latest (document_of c.bucket_uuid o),
          resumes ∙ ap (λ k. some (resumed d.config latest (or_empty d.bucket_uuid k))) held,
          number,
          history,
          snapshot,
          omega (arith, number),
        )
