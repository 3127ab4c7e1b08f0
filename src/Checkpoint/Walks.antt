-- ===== src/Checkpoint/Walks.antt =====
-- The walks of Load in stream/checkpoint.go over the documents of a checkpoint.
use go_dcp.Prelude.{
  ℕ, ◌≡◌, ◌⊎◌, refl, sym, ap, ◌∙◌, inl, inr, Bool, true, false, Option, none, some, List, [], ◌∷◌,
  nat_comparable, string_comparable, lookup, HasDistinctKeys, arith, ◌==◌, ==_iff, Bool-cases,
  Option-cases, if◌then◌else◌, ◌>>=◌,
}
use go_dcp.Wrapper.{CsMap, ConcurrentSwissMap, create, load}
use go_dcp.Wrapper.Laws.{load-store, each, items, range-each, lookup-items, items-HasDistinctKeys}
use go_dcp.Models.{Offset, CheckpointDocument}
use go_dcp.Checkpoint.Defs.{
  Checkpoint, Offsets, load_offset, keep_offset, latest_offset, keep_latest, walk_documents,
  load_dump, checkpoint_auto_reset_type_latest,
}

module _ ⦃cs : CsMap ℕ⦄ where
  module _ (offset_for : ℕ → CheckpointDocument → Option Offset)
      (keep : ℕ → Offset → Offsets → Offsets) where
    abbrev visit_document : ℕ → CheckpointDocument → Option Offsets → Option Offsets
    visit_document vb_id doc all =
        all >>= λ kept. offset_for vb_id doc >>= λ offset. some (keep vb_id offset kept)

    -- Nothing comes after a panic.
    each-none : (l : List (ℕ × CheckpointDocument)) → each visit_document l none ≡ none
    each-none [] = refl
    each-none ((k, v) ∷ r) = each-none r

    each-visit_document :
        ((k : ℕ) (o : Offset) (t : Offsets) (j : ℕ)
          → load (keep k o t).0 j ≡ (if k == j then some o else load t.0 j))
        → (l : List (ℕ × CheckpointDocument)) (t r : Offsets) → HasDistinctKeys l
        → each visit_document l (some t) ≡ some r
        → (j : ℕ)
        → ((doc : CheckpointDocument)
            → lookup j l ≡ some doc
            → (o : Offset) × (offset_for j doc ≡ some o) × (load r.0 j ≡ some o))
          × (lookup j l ≡ none → load r.0 j ≡ load t.0 j)
    each-visit_document law [] t r distinct h j =
        let same : t ≡ r = cc in
        (λ doc e. absurd (ground arith), λ e. ap (λ p. load p.0 j) (sym same))
    each-visit_document law ((k, v) ∷ l) t r distinct h j = elim (Option-cases (offset_for k v)) [
      | inl panics ↦
          let stuck : each visit_document l (offset_for k v >>= λ o. some (keep k o t))
              ≡ each visit_document l none =
            rw panics in
          let bad : none ≡ some r = sym (each-none l) ∙ sym stuck ∙ h in absurd (ground arith)
      | inr (o, found) ↦
          let went : each visit_document l (some (keep k o t))
              ≡ each visit_document l (offset_for k v >>= λ o. some (keep k o t)) =
            rw found in
          let (hit, miss) = each-visit_document law l (keep k o t) r distinct.1 (went ∙ h) j in
          elim (Bool-cases (k == j)) [
            | inl here ↦
                let same : k ≡ j = (==_iff k j).0 here in
                let absent : lookup j l ≡ none = ap (λ i. lookup i l) (sym same) ∙ distinct.0 in
                let stored : load r.0 j ≡ some o = ground (arith, miss absent, law k o t j) in
                (λ doc e. (o, ground arith, stored), λ e. absurd (ground arith))
            | inr there ↦ (λ doc e. hit doc (ground arith), λ e. ground (arith, miss, law k o t j))
          ]
    ]

    pub walk_documents-offset :
        ((k : ℕ) (o : Offset) (t : Offsets) (j : ℕ)
          → load (keep k o t).0 j ≡ (if k == j then some o else load t.0 j))
        → (dump : ConcurrentSwissMap ℕ CheckpointDocument) (r : Offsets)
        → walk_documents offset_for keep dump ≡ some r
        → (j : ℕ) (doc : CheckpointDocument) → load dump j ≡ some doc
        → (o : Offset) × (offset_for j doc ≡ some o) × (load r.0 j ≡ some o)
    unfolding walk_documents
    walk_documents-offset law dump r h j doc held =
        (each-visit_document law (items dump) (create Offset 1024, create Bool 1024, false) r
            (items-HasDistinctKeys dump)
            (sym (
                range-each dump visit_document (some (create Offset 1024, create Bool 1024, false)))
              ∙ h)
            j).0
          doc (lookup-items dump j ∙ held)

  -- The two ways of Load.
  pub load_dump-latest :
      (seq_no_map : ConcurrentSwissMap ℕ ℕ) (c : Checkpoint) (logs : ℕ → Option (List ℕ))
      → (dump : ConcurrentSwissMap ℕ CheckpointDocument)
      → string_comparable.beq c.config.auto_reset checkpoint_auto_reset_type_latest ≡ true
      → load_dump seq_no_map c logs dump false
        ≡ walk_documents
            (λ vb_id doc. latest_offset seq_no_map c.config logs vb_id)
            (keep_latest seq_no_map)
            dump
  unfolding load_dump
  load_dump-latest seq_no_map c logs dump latest = rw latest

  pub keep_latest-stores :
      (seq_no_map : ConcurrentSwissMap ℕ ℕ) (k : ℕ) (o : Offset) (t : Offsets) (j : ℕ)
      → load (keep_latest seq_no_map k o t).0 j ≡ (if k == j then some o else load t.0 j)
  keep_latest-stores seq_no_map k o t j = ground (arith, load-store t.0 k j o)

  pub keep_offset-stores :
      (k : ℕ) (o : Offset) (t : Offsets) (j : ℕ)
      → load (keep_offset k o t).0 j ≡ (if k == j then some o else load t.0 j)
  keep_offset-stores k o t j = load-store t.0 k j o

  pub kept_or_not_latest :
      (seq_no_map : ConcurrentSwissMap ℕ ℕ) (c : Checkpoint) (logs : ℕ → Option (List ℕ))
      → (dump : ConcurrentSwissMap ℕ CheckpointDocument) (exist : Bool)
      → (exist ≡ true)
        ⊎ (string_comparable.beq c.config.auto_reset checkpoint_auto_reset_type_latest ≡ false)
      → load_dump seq_no_map c logs dump exist
        ≡ walk_documents (load_offset seq_no_map c.config) keep_offset dump
  unfolding load_dump
  kept_or_not_latest seq_no_map c logs dump exist (inl e) = rw e
  kept_or_not_latest seq_no_map c logs dump true (inr e) = refl
  kept_or_not_latest seq_no_map c logs dump false (inr e) = rw e
