-- ===== src/Stream/Offsets.antt =====
-- How events and acknowledgements move the offsets of stream/stream.go.
use go_dcp.Prelude.{
  ℕ, ◌≡◌, refl, Bool, true, false, not, ◌&&◌, Option, none, some, [], ◌∷◌, nat_comparable, arith,
  ◌==◌, if◌then◌else◌,
}
use go_dcp.Wrapper.{CsMap, ConcurrentSwissMap, load, store_if}
use go_dcp.Wrapper.Laws.{load-store, load-store_if-some, load-store_if-none}
use go_dcp.Models.{Offset, in_range}
use go_dcp.Stream.State.{Stream, track_offset, is_stale, mark_dirty, set_offset}

module _ ⦃cs : CsMap ℕ⦄ where
  -- setOffset takes an offset for a vBucket of the range that does not go back.
  abbrev pub accepts : Stream → ℕ → Offset → Bool
  accepts s vb_id offset =
      in_range s.vb_id_range vb_id && not (is_stale (load s.offsets vb_id) offset)

  pub offsets-set_offset :
      (s : Stream) (vb_id : ℕ) (o : Offset) (dirty : Bool) (j : ℕ)
      → load (set_offset s vb_id o dirty).0.offsets j
        ≡ (if accepts s vb_id o && vb_id == j then some o else load s.offsets j)
  unfolding set_offset
  offsets-set_offset s vb_id o dirty j = ground (arith, load-store s.offsets vb_id j o)

  load-mark_dirty :
      (m : ConcurrentSwissMap ℕ Bool) (k j : ℕ)
      → load (store_if m k mark_dirty) j ≡ (if k == j then some true else load m j)
  load-mark_dirty m k j = by_old (load m k) refl
    where
      by_old :
          (o : Option Bool)
          → load m k ≡ o
          → load (store_if m k mark_dirty) j ≡ (if k == j then some true else load m j)
      by_old none e = load-store_if-some m k j mark_dirty true (rw e)
      by_old (some false) e = load-store_if-some m k j mark_dirty true (rw e)
      by_old (some true) e = ground (arith, load-store_if-none m k j mark_dirty (rw e))

  pub dirty-set_offset :
      (s : Stream) (vb_id : ℕ) (o : Offset) (dirty : Bool) (j : ℕ)
      → load (set_offset s vb_id o dirty).0.dirty_offsets j
        ≡ (if dirty && (accepts s vb_id o && vb_id == j) then some true else load s.dirty_offsets j)
  unfolding set_offset
  dirty-set_offset s vb_id o dirty j = ground (arith, load-mark_dirty s.dirty_offsets vb_id j)

  pub range-set_offset :
      (s : Stream) (vb_id : ℕ) (o : Offset) (dirty : Bool)
      → ((set_offset s vb_id o dirty).0.vb_id_range ≡ s.vb_id_range)
        × ((set_offset s vb_id o dirty).0.any_dirty_offset ≡ s.any_dirty_offset)
  unfolding set_offset
  range-set_offset s vb_id o dirty = ground arith

  -- TrackOffset is called for what is taken, and for nothing else.
  pub calls-set_offset :
      (s : Stream) (vb_id : ℕ) (o : Offset) (dirty : Bool)
      → (set_offset s vb_id o dirty).1
        ≡ (if accepts s vb_id o then track_offset vb_id o ∷ [] else [])
  unfolding set_offset
  calls-set_offset s vb_id o dirty = ground arith
