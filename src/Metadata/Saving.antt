-- ===== src/Metadata/Saving.antt =====
-- What a save of couchbase/metadata.go leaves in the cluster.
use go_dcp.Prelude.{
  ℕ, ◌≡◌, ◌≢◌, refl, sym, ap, ◌∙◌, inl, inr, Bool, ◌&&◌, Option, none, some, List, [], ◌∷◌,
  nat_comparable, lookup, HasDistinctKeys, arith, ◌==◌, Bool-cases, Option-cases, if◌then◌else◌,
  ◌>>=◌,
}
use go_dcp.Models.{CheckpointDocument}
use go_dcp.Metadata.Contract.{is_dirty, or_document}
use go_dcp.Metadata.Ids.{get_checkpoint_id, get_checkpoint_id-injective}
use go_dcp.Metadata.Documents.{KvError, key_not_found, other_error, Agent}
use go_dcp.Metadata.Couchbase.{
  Codec, with_error, upsert_created, upsert_or_create, save_v_bucket_checkpoint, save_if_dirty,
  save,
}

module _ (agent : Agent) (codec : Codec) (group_name : List ℕ) where
  created :
      (s : agent.State) (id payload : List ℕ) (r : Option KvError × agent.State)
      → r ≡ agent.set s id []
      → ((upsert_created agent codec group_name id payload r).0 ≡ none
          → agent.attribute (upsert_created agent codec group_name id payload r).1 id
            ≡ some payload)
        × ((j : List ℕ)
            → id ≢ j
            → agent.attribute (upsert_created agent codec group_name id payload r).1 j
              ≡ agent.attribute s j)
  created s id payload (some k, s') e = (
    λ ok. absurd (ground arith),
    λ j apart. ap (λ p. agent.attribute p.1 j) e ∙ agent.attribute-set s id j [] apart,
  )
  created s id payload (none, s') e = (
    λ ok. agent.attribute-mutate_in s' id payload ok,
    λ j apart.
        agent.attribute-mutate_in_other s' id j payload apart
        ∙ ap (λ p. agent.attribute p.1 j) e
        ∙ agent.attribute-set s id j [] apart,
  )

  upsert_or_create-attribute :
      (s : agent.State) (id payload : List ℕ) (r : Option KvError × agent.State)
      → r ≡ agent.mutate_in s id payload
      → ((upsert_or_create agent codec group_name id payload r).0 ≡ none
          → agent.attribute (upsert_or_create agent codec group_name id payload r).1 id
            ≡ some payload)
        × ((j : List ℕ)
            → id ≢ j
            → agent.attribute (upsert_or_create agent codec group_name id payload r).1 j
              ≡ agent.attribute s j)
  upsert_or_create-attribute s id payload (none, s') e =
      let same : s' ≡ (agent.mutate_in s id payload).1 = ap (λ p. p.1) e in
      (
        λ ok.
            ap (λ t. agent.attribute t id) same
            ∙ agent.attribute-mutate_in s id payload (sym (ap (λ p. p.0) e)),
        λ j apart.
            ap (λ t. agent.attribute t j) same
            ∙ agent.attribute-mutate_in_other s id j payload apart,
      )
  upsert_or_create-attribute s id payload (some other_error, s') e =
      let same : s' ≡ (agent.mutate_in s id payload).1 = ap (λ p. p.1) e in
      (
        λ ok. absurd (ground arith),
        λ j apart.
            ap (λ t. agent.attribute t j) same
            ∙ agent.attribute-mutate_in_other s id j payload apart,
      )
  upsert_or_create-attribute s id payload (some key_not_found, s') e =
      let same : s' ≡ (agent.mutate_in s id payload).1 = ap (λ p. p.1) e in
      let (last, others) = created s' id payload (agent.set s' id []) refl in
      (
        last,
        λ j apart.
            others j apart
            ∙ ap (λ t. agent.attribute t j) same
            ∙ agent.attribute-mutate_in_other s id j payload apart,
      )

  -- The document that the cluster holds for a vBucket, where it can be decoded.
  abbrev pub document : agent.State → ℕ → Option CheckpointDocument
  document s vb_id =
      get_checkpoint_id vb_id group_name >>= λ id. agent.attribute s id >>= codec.unmarshal

  save_v_bucket_lem :
      (s : agent.State) (vb_id : ℕ) (doc : CheckpointDocument)
      → save_v_bucket_checkpoint agent codec group_name s vb_id doc ≡ (
          get_checkpoint_id vb_id group_name >>= λ id. some (
            upsert_or_create agent codec group_name id
              (codec.marshal doc)
              (agent.mutate_in s id (codec.marshal doc))))
  unfolding save_v_bucket_checkpoint
  save_v_bucket_lem s vb_id doc = refl

  document-other :
      (s s' : agent.State) (vb_id j : ℕ) (id : List ℕ)
      → get_checkpoint_id vb_id group_name ≡ some id
      → ((i : List ℕ) → id ≢ i → agent.attribute s' i ≡ agent.attribute s i)
      → vb_id ≢ j
      → document s' j ≡ document s j
  document-other s s' vb_id j id at others apart =
      elim (Option-cases (get_checkpoint_id j group_name)) [
        | inl panics ↦ rw panics
        | inr (i, at_j) ↦ rw at_j (
            rw (
              others i λ same.
                apart (
                  get_checkpoint_id-injective group_name vb_id j id at
                    (at_j ∙ ap some (sym same)))))
      ]

  document-save_v_bucket :
      (s s' : agent.State) (vb_id : ℕ) (doc : CheckpointDocument) (err : Option KvError)
      → save_v_bucket_checkpoint agent codec group_name s vb_id doc ≡ some (err, s')
      → (err ≡ none → document s' vb_id ≡ some doc)
        × ((j : ℕ) → vb_id ≢ j → document s' j ≡ document s j)
  document-save_v_bucket s s' vb_id doc err h =
      elim (Option-cases (get_checkpoint_id vb_id group_name)) [
        | inl panics ↦
            let bad : none ≡ some (err, s') = sym (save_v_bucket_lem s vb_id doc ∙ rw panics) ∙ h in
            absurd (ground arith)
        | inr (id, at) ↦
            let payload = codec.marshal doc in
            let r =
              upsert_or_create agent codec group_name id payload (agent.mutate_in s id payload) in
            let whole : some r ≡ some (err, s') = sym (save_v_bucket_lem s vb_id doc ∙ rw at) ∙ h in
            let same : r ≡ (err, s') = cc in
            let (last, others) =
              upsert_or_create-attribute s id payload (agent.mutate_in s id payload) refl in
            (
              λ ok. rw at (
                  rw (ap (λ p. agent.attribute p.1 id) (sym same) ∙ last (ap (λ p. p.0) same ∙ ok))
                    (codec.unmarshal-marshal doc)),
              λ j apart.
                  document-other s s' vb_id j id at
                    (λ i other. ap (λ p. agent.attribute p.1 i) (sym same) ∙ others i other) apart,
            )
      ]

  document-save_if_dirty :
      (s s' : agent.State) (dirty : List (ℕ × Bool)) (vb_id : ℕ) (doc : CheckpointDocument)
      → save_if_dirty agent codec group_name dirty s vb_id doc ≡ some (none, s')
      → (j : ℕ)
      → document s' j ≡ (if is_dirty dirty j && vb_id == j then some doc else document s j)
  document-save_if_dirty s s' dirty vb_id doc h j = elim (Bool-cases (is_dirty dirty vb_id)) [
    | inl marked ↦
        let (last, others) = document-save_v_bucket s s' vb_id doc none (sym (rw marked) ∙ h) in
        ground (arith, last refl, others j)
    | inr clean ↦ let same : s ≡ s' = cc in ground (arith, ap (λ t. document t j) same)
  ]

  with_error_lem :
      (err : Option KvError) (r : Option (Option KvError × agent.State)) (s' : agent.State)
      → with_error agent codec group_name err r ≡ some (none, s')
      → (err ≡ none) × (r ≡ some (none, s'))
  with_error_lem err none s' h = absurd (ground arith)
  with_error_lem none (some (e, t)) s' h = (refl, h)
  with_error_lem (some k) (some (e, t)) s' h = absurd (ground arith)

  chain_without_error :
      (m : Option (Option KvError × agent.State))
      → (k : agent.State → Option (Option KvError × agent.State)) → (s' : agent.State)
      → (m >>= λ (err, t). with_error agent codec group_name err (k t)) ≡ some (none, s')
      → (t : agent.State) × (m ≡ some (none, t)) × (k t ≡ some (none, s'))
  chain_without_error none k s' h = absurd (ground arith)
  chain_without_error (some (err, t)) k s' h =
      let (clean, rest) = with_error_lem err (k t) s' h in (t, ap (λ e. some (e, t)) clean, rest)

  -- A save that reports no error has written the document of every dirty vBucket that it was given
  -- one for, created where it was missing, and has left the document of every other vBucket as it
  -- was. This is for any cluster whose answers are true, and any encoding that can be read back.
  pub document-save :
      (s s' : agent.State) (docs : List (ℕ × CheckpointDocument)) (dirty : List (ℕ × Bool))
      → HasDistinctKeys docs
      → save agent codec group_name s docs dirty ≡ some (none, s')
      → (j : ℕ)
      → document s' j
        ≡ (if is_dirty dirty j then or_document (lookup j docs) (document s j) else document s j)
  unfolding save
  document-save s s' [] dirty distinct h j =
      let same : s ≡ s' = cc in ground (arith, ap (λ t. document t j) same)
  document-save s s' ((vb_id, doc) ∷ docs) dirty distinct h j =
      let (t, one, rest) =
        chain_without_error (save_if_dirty agent codec group_name dirty s vb_id doc)
          (λ u. save agent codec group_name u docs dirty) s' h in
      let first = document-save_if_dirty s t dirty vb_id doc one j in
      let later = document-save t s' docs dirty (distinct.1) rest j in
      ground (arith, first, later, distinct.0)
