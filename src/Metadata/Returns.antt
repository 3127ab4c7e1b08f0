-- ===== src/Metadata/Returns.antt =====
-- That a save of couchbase/metadata.go comes to an end without a panic.
use go_dcp.Prelude.{
  ℕ, ◌≡◌, refl, Bool, false, Option, none, some, List, [], ◌∷◌, nat_comparable, inl, inr,
  Bool-cases,
}
use go_dcp.Models.{CheckpointDocument}
use go_dcp.Metadata.Contract.{is_dirty}
use go_dcp.Metadata.Ids.{contains_dot, get_checkpoint_id}
use go_dcp.Metadata.Documents.{Agent}
use go_dcp.Metadata.Couchbase.{Codec, save_if_dirty, save_v_bucket_checkpoint, save}

abbrev pub Returns {ℓ} : {A : Type ℓ} → Option A → Type ℓ
Returns {A = A} r = (a : A) × (r ≡ some a)

module _ (agent : Agent) (codec : Codec) (group_name : List ℕ)
    (plain : contains_dot group_name ≡ false) where
  save_v_bucket-Returns :
      (s : agent.State) (vb_id : ℕ) (doc : CheckpointDocument)
      → Returns (save_v_bucket_checkpoint agent codec group_name s vb_id doc)
  unfolding save_v_bucket_checkpoint get_checkpoint_id
  save_v_bucket-Returns s vb_id doc = rw plain (_, refl)

  save_if_dirty-Returns :
      (s : agent.State) (dirty : List (ℕ × Bool)) (vb_id : ℕ) (doc : CheckpointDocument)
      → Returns (save_if_dirty agent codec group_name dirty s vb_id doc)
  save_if_dirty-Returns s dirty vb_id doc = elim (Bool-cases (is_dirty dirty vb_id)) [
    | inl marked ↦ let (r, e) = save_v_bucket-Returns s vb_id doc in (r, rw marked e)
    | inr clean ↦ ((none, s), rw clean)
  ]

  pub save-Returns :
      (s : agent.State) (docs : List (ℕ × CheckpointDocument)) (dirty : List (ℕ × Bool))
      → Returns (save agent codec group_name s docs dirty)
  unfolding save
  save-Returns s [] dirty = ((none, s), refl)
  save-Returns s ((vb_id, doc) ∷ docs) dirty =
      let ((err, s'), first) = save_if_dirty-Returns s dirty vb_id doc in
      let ((err', s''), rest) = save-Returns s' docs dirty in rw (first, rest) (_, refl)
