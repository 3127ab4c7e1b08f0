-- ===== src/Metadata/Loading.antt =====
-- What a load of couchbase/metadata.go gathers; with this, its store keeps what
-- Metadata/Contract.antt asks of a store.
use go_dcp.Prelude.{
  ℕ, ◌≡◌, refl, sym, ap, ◌∙◌, inl, inr, Bool, false, ◌||◌, Option, none, some, List, [], ◌∷◌,
  nat_comparable, contains, arith, Option-cases, if◌then◌else◌, ◌>>=◌,
}
use go_dcp.Wrapper.{CsMap, ConcurrentSwissMap, create, load, store}
use go_dcp.Wrapper.Laws.{load-create, load-store}
use go_dcp.Models.{CheckpointDocument}
use go_dcp.Metadata.Defs.{loaded}
use go_dcp.Metadata.Contract.{or_empty, is_some, any_kept, Durable}
use go_dcp.Metadata.Ids.{get_checkpoint_id}
use go_dcp.Metadata.Documents.{key_not_found, other_error, Found, found, not_read, Agent}
use go_dcp.Metadata.Couchbase.{Codec, read_document, load_documents, load_result, cb_metadata}
use go_dcp.Metadata.Saving.{document, document-save}

module _ (agent : Agent) (codec : Codec) (group_name : List ℕ) where
  read_document-or_empty :
      (s : agent.State) (bucket_uuid : List ℕ) (id : List ℕ) (doc : CheckpointDocument)
      (is_there : Bool)
      → read_document agent codec group_name bucket_uuid (agent.lookup_in s id)
        ≡ some (doc, is_there)
      → (doc ≡ or_empty bucket_uuid (agent.attribute s id >>= codec.unmarshal))
        × (is_there ≡ is_some (agent.attribute s id >>= codec.unmarshal))
  read_document-or_empty s bucket_uuid id doc is_there h = by_found (agent.lookup_in s id) refl h
    where
      by_found :
          (f : Found)
          → agent.lookup_in s id ≡ f
          → read_document agent codec group_name bucket_uuid f ≡ some (doc, is_there)
          → (doc ≡ or_empty bucket_uuid (agent.attribute s id >>= codec.unmarshal))
            × (is_there ≡ is_some (agent.attribute s id >>= codec.unmarshal))
      by_found (not_read other_error) at e = absurd (ground arith)
      by_found (not_read key_not_found) at e =
          rw (agent.attribute-lookup_in_none s id at) (ground arith)
      by_found (found payload) at e = rw (agent.attribute-lookup_in s id payload at) (ground arith)

  module _ ⦃cs : CsMap ℕ⦄ where
    abbrev loads :
        agent.State
        → List ℕ
        → List ℕ
        → ConcurrentSwissMap ℕ CheckpointDocument
        → Bool
        → Option (ConcurrentSwissMap ℕ CheckpointDocument × Bool)
    loads s vb_ids bucket_uuid state exist =
        load_documents agent codec group_name s vb_ids bucket_uuid state exist

    load_documents_lem :
        (s : agent.State) (v : ℕ) (vs : List ℕ) (bucket_uuid : List ℕ)
        → (state : ConcurrentSwissMap ℕ CheckpointDocument) (exist : Bool)
        → loads s (v ∷ vs) bucket_uuid state exist ≡ (
            get_checkpoint_id v group_name >>= λ id.
            read_document agent codec group_name bucket_uuid (agent.lookup_in s id)
            >>= λ (doc, is_there). loads s vs bucket_uuid (store state v doc) (exist || is_there))
    unfolding load_documents
    load_documents_lem s v vs bucket_uuid state exist = refl

    -- What a load that returns has gathered.
    abbrev Gathers :
        agent.State
        → List ℕ
        → List ℕ
        → ConcurrentSwissMap ℕ CheckpointDocument
        → ConcurrentSwissMap ℕ CheckpointDocument
        → Bool
        → Bool
        → Type 0
    Gathers s vs bucket_uuid state r exist ex =
        ((j : ℕ)
          → load r j ≡ (
              if contains j vs
              then some (or_empty bucket_uuid (document agent codec group_name s j))
              else load state j))
        × (ex ≡ (exist || any_kept (document agent codec group_name s) vs))

    document-load_one :
        (s : agent.State) (v : ℕ) (vs : List ℕ) (bucket_uuid : List ℕ)
        → (state r : ConcurrentSwissMap ℕ CheckpointDocument) (exist ex : Bool) → (id : List ℕ)
        → get_checkpoint_id v group_name ≡ some id
        → loads s (v ∷ vs) bucket_uuid state exist ≡ some (r, ex)
        → (rest : (doc : CheckpointDocument) (is_there : Bool)
            → loads s vs bucket_uuid (store state v doc) (exist || is_there) ≡ some (r, ex)
            → Gathers s vs bucket_uuid (store state v doc) r (exist || is_there) ex)
        → Gathers s (v ∷ vs) bucket_uuid state r exist ex
    document-load_one s v vs bucket_uuid state r exist ex id at h rest =
        by_read (read_document agent codec group_name bucket_uuid (agent.lookup_in s id)) refl
      where
        by_read :
            (o : Option (CheckpointDocument × Bool))
            → read_document agent codec group_name bucket_uuid (agent.lookup_in s id) ≡ o
            → Gathers s (v ∷ vs) bucket_uuid state r exist ex
        by_read none e =
            let bad : none ≡ some (r, ex) =
              sym (load_documents_lem s v vs bucket_uuid state exist ∙ rw (at, e)) ∙ h in
            absurd (ground arith)
        by_read (some (doc, is_there)) e =
            let (maps, exists) =
              rest doc is_there
                (sym (load_documents_lem s v vs bucket_uuid state exist ∙ rw (at, e)) ∙ h) in
            let (is_doc, is_flag) = read_document-or_empty s bucket_uuid id doc is_there e in
            let held : document agent codec group_name s v
                ≡ (agent.attribute s id >>= codec.unmarshal) =
              rw at in
            let doc_v : doc ≡ or_empty bucket_uuid (document agent codec group_name s v) =
              is_doc ∙ ap (or_empty bucket_uuid) (sym held) in
            let flag_v : is_there ≡ is_some (document agent codec group_name s v) =
              is_flag ∙ ap is_some (sym held) in
            (λ j. ground (arith, maps j, load-store state v j doc, doc_v), ground arith)

    document-load :
        (s : agent.State) (vs : List ℕ) (bucket_uuid : List ℕ)
        → (state r : ConcurrentSwissMap ℕ CheckpointDocument) (exist ex : Bool)
        → loads s vs bucket_uuid state exist ≡ some (r, ex)
        → Gathers s vs bucket_uuid state r exist ex
    unfolding load_documents
    document-load s [] bucket_uuid state r exist ex h =
        let same : state ≡ r = cc in
        let also : exist ≡ ex = cc in (λ j. ap (λ m. load m j) (sym same), ground arith)
    document-load s (v ∷ vs) bucket_uuid state r exist ex h =
        elim (Option-cases (get_checkpoint_id v group_name)) [
          | inl panics ↦
              let bad : none ≡ some (r, ex) =
                sym (load_documents_lem s v vs bucket_uuid state exist ∙ rw panics) ∙ h in
              absurd (ground arith)
          | inr (id, at) ↦
              document-load_one s v vs bucket_uuid state r exist ex id at h λ doc is_there e.
                document-load s vs bucket_uuid (store state v doc) r (exist || is_there) ex e
        ]

    load_result_lem :
        (o : Option (ConcurrentSwissMap ℕ CheckpointDocument × Bool))
        → (docs : ConcurrentSwissMap ℕ CheckpointDocument) (exist : Bool)
        → load_result agent codec group_name o ≡ loaded docs exist
        → o ≡ some (docs, exist)
    load_result_lem none docs exist h = absurd (ground arith)
    load_result_lem (some (d, e)) docs exist h =
        let same : d ≡ docs = cc in let also : e ≡ exist = cc in cc

    -- A load that returns has, for each vBucket that it is asked for and no other, the document
    -- that the cluster holds, or an empty one where there is none or it cannot be decoded, and
    -- says that a checkpoint exists exactly when one of these vBuckets has a document that can
    -- be decoded.
    pub document-loaded :
        (s : agent.State) (vs : List ℕ) (bucket_uuid : List ℕ)
        → (docs : ConcurrentSwissMap ℕ CheckpointDocument) (exist : Bool)
        → (cb_metadata agent codec group_name).load s vs bucket_uuid ≡ loaded docs exist
        → ((j : ℕ)
            → load docs j ≡ (
                if contains j vs
                then some (or_empty bucket_uuid (document agent codec group_name s j))
                else none))
          × (exist ≡ any_kept (document agent codec group_name s) vs)
    document-loaded s vs bucket_uuid docs exist h =
        let (maps, exists) =
          document-load s vs bucket_uuid (create CheckpointDocument 1024) docs false exist
            (load_result_lem _ docs exist h) in
        (λ j. ground (arith, maps j, load-create {V = CheckpointDocument} 1024 j), exists)

    -- So this store meets the contract.
    unfoldable pub cb_metadata_durable : Durable (cb_metadata agent codec group_name)
    cb_metadata_durable = record {
      kept = document agent codec group_name;
      kept-save = λ s s' docs dirty bucket_uuid distinct h.
          document-save agent codec group_name s s' docs dirty distinct h;
      kept-load = λ s vs bucket_uuid docs exist h. document-loaded s vs bucket_uuid docs exist h;
    }
