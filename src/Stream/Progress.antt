-- ===== src/Stream/Progress.antt =====
-- The offsets that stream/stream.go keeps over any run of events and acknowledgements.
use go_dcp.Prelude.{
  ℕ, ◌≤◌, ◌≡◌, ◌∙◌, sym, ap, ◌⊎◌, inl, inr, true, ◌&&◌, Option, none, some, List, [], ◌∷◌,
  nat_comparable, arith, ◌==◌, Bool-cases, Option-cases,
}
use go_dcp.Wrapper.{CsMap, load}
use go_dcp.Models.{Offset, in_range}
use go_dcp.Stream.State.{Stream}
use go_dcp.Stream.Offsets.{accepts}
use go_dcp.Stream.Runs.{Step, Write, write_of, step, run, written, offsets-step, range-step}

module _ ⦃cs : CsMap ℕ⦄ where
  -- A stored offset with at least this sequence number.
  abbrev pub Reaches : Option Offset → ℕ → Type 0
  Reaches r n = (c : Offset) × (r ≡ some c) × (n ≤ c.seq_no)

  -- The step hands the offset to setOffset for the vBucket `j`.
  abbrev pub Writes : ℕ → Offset → Option Write → Type 0
  Writes j o none = ⊥
  Writes j o (some w) = (w.vb_id ≡ j) × (w.offset ≡ o)

  abbrev pub WrittenBy : ℕ → Offset → List Step → Type 0
  WrittenBy j o [] = ⊥
  WrittenBy j o (x ∷ xs) = Writes j o (write_of x) ⊎ WrittenBy j o xs

  keeps_written :
      (s : Stream) (w : Option Write) (j : ℕ) (c : Offset)
      → load s.offsets j ≡ some c
      → Reaches (written s w j) c.seq_no
  keeps_written s none j c h = (c, h, omega arith)
  keeps_written s (some w) j c h = elim (Bool-cases (accepts s w.vb_id w.offset && w.vb_id == j)) [
    | inl taken ↦ (w.offset, rw taken, ground arith)
    | inr left ↦ (c, rw left h, omega arith)
  ]

  takes_written :
      (s : Stream) (w : Option Write) (j : ℕ) (o : Offset)
      → in_range s.vb_id_range j ≡ true
      → Writes j o w
      → Reaches (written s w j) o.seq_no
  takes_written s none j o inside h = elim h [ ]
  takes_written s (some w) j o inside (at, is) =
      let same : w.offset.seq_no ≡ o.seq_no = ap (λ (x : Offset). x.seq_no) is in
      elim (Bool-cases (accepts s w.vb_id w.offset && w.vb_id == j)) [
        | inl taken ↦ (w.offset, rw taken, omega arith)
        | inr left ↦ elim (Option-cases (load s.offsets j)) [
          | inl absent ↦ absurd (ground arith)
          | inr (c, present) ↦ (c, rw left present, ground arith)
        ]
      ]

  from_written :
      (s : Stream) (w : Option Write) (j : ℕ) (c : Offset)
      → written s w j ≡ some c
      → (load s.offsets j ≡ some c) ⊎ Writes j c w
  from_written s none j c h = inl h
  from_written s (some w) j c h = ground arith

  pub keeps_run :
      (s : Stream) (xs : List Step) (j : ℕ) (c : Offset)
      → load s.offsets j ≡ some c
      → Reaches (load (run s xs).offsets j) c.seq_no
  unfolding run
  keeps_run s [] j c h = (c, h, omega arith)
  keeps_run s (x ∷ xs) j c h =
      let (d, at, le) = keeps_written s (write_of x) j c h in
      let (e, final, le') = keeps_run (step s x) xs j d (offsets-step s x j ∙ at) in
      (e, final, omega arith)

  takes_run :
      (s : Stream) (xs : List Step) (j : ℕ) (o : Offset)
      → in_range s.vb_id_range j ≡ true
      → WrittenBy j o xs
      → Reaches (load (run s xs).offsets j) o.seq_no
  unfolding run
  takes_run s [] j o inside h = elim h [ ]
  takes_run s (x ∷ xs) j o inside (inl now) =
      let (d, at, le) = takes_written s (write_of x) j o inside now in
      let (e, final, le') = keeps_run (step s x) xs j d (offsets-step s x j ∙ at) in
      (e, final, omega arith)
  takes_run s (x ∷ xs) j o inside (inr later) =
      takes_run (step s x) xs j o (ap (λ r. in_range r j) (range-step s x) ∙ inside) later

  from_run :
      (s : Stream) (xs : List Step) (j : ℕ) (c : Offset)
      → load (run s xs).offsets j ≡ some c
      → (load s.offsets j ≡ some c) ⊎ WrittenBy j c xs
  unfolding run
  from_run s [] j c h = inl h
  from_run s (x ∷ xs) j c h = elim (from_run (step s x) xs j c h) [
    | inr later ↦ inr (inr later)
    | inl before ↦ elim (from_written s (write_of x) j c (sym (offsets-step s x j) ∙ before)) [
      | inl first ↦ inl first
      | inr now ↦ inr (inl now)
    ]
  ]

  -- Over any run of events and acknowledgements, in any order, the offset kept for a vBucket of
  -- the stream's range is the furthest one: it is behind neither the offset at the start nor any
  -- offset that a step handed to setOffset for it, and it is one of these. An item with a key
  -- that is not the program's own hands over its offset only when it is acknowledged, so what no
  -- listener has acknowledged never moves the offset.
  pub offset_is_furthest :
      (s : Stream) (xs : List Step) (j : ℕ) (o : Offset)
      → in_range s.vb_id_range j ≡ true
      → (load s.offsets j ≡ some o) ⊎ WrittenBy j o xs
      → (d : Offset) × (load (run s xs).offsets j ≡ some d)
        × (o.seq_no ≤ d.seq_no)
        × ((load s.offsets j ≡ some d) ⊎ WrittenBy j d xs)
  offset_is_furthest s xs j o inside h =
      let (d, at, le) = reached h in (d, at, le, from_run s xs j d at)
    where
      reached :
          (load s.offsets j ≡ some o) ⊎ WrittenBy j o xs
          → Reaches (load (run s xs).offsets j) o.seq_no
      reached (inl before) = keeps_run s xs j o before
      reached (inr written) = takes_run s xs j o inside written
