-- ===== src/Lifecycle/Attempts.antt =====
-- One attempt of openStream in stream/stream.go, and what a stream keeps while others open.
use go_dcp.Prelude.{
  ℕ, Bool-cases, ◌≤◌, ◌≡◌, refl, sym, ap, subst, ◌∙◌, inl, inr, Option, none, some, nat_comparable,
  arith,
}
use go_dcp.Wrapper.{CsMap, ConcurrentSwissMap, load, store}
use go_dcp.Wrapper.Laws.{load-store}
use go_dcp.Models.{Offset}
use go_dcp.Observer.{Observer}
use go_dcp.Stream.{Stream}
use go_dcp.Lifecycle.Defs.{
  to_observer, to_observers, opened_with, open_at, open_stream, opened_or_panic,
}

-- OpenStream of the client: what becomes of the observer, unless it is an error.
abbrev pub Client : Type 0
Client = ℕ → Offset → Option (Observer → Observer)

module _ ⦃cs : CsMap ℕ⦄ where
  -- The client opened the stream of a vBucket at the offset kept for it, and the observer took what
  -- it answered.
  abbrev pub Opened : Client → Stream → ℕ → Stream → Type 0
  Opened client s j t =
      (o : Offset) × (f : Observer → Observer) × (os : ConcurrentSwissMap ℕ Observer)
      × (so : Observer) × (load s.offsets j ≡ some o)
      × (client j o ≡ some f)
      × (s.observers ≡ some os)
      × (t ≡ record s { observers = some (store os j (f so)) })

  abbrev Answers : Stream → ℕ → (Observer → Observer) → Stream → Type 0
  Answers s j f t =
      (os : ConcurrentSwissMap ℕ Observer) × (so : Observer) × (s.observers ≡ some os)
      × (t ≡ record s { observers = some (store os j (f so)) })

  to_observers-Answers :
      (s t : Stream) (j : ℕ) (f : Observer → Observer)
      → (found : Option (ConcurrentSwissMap ℕ Observer)) → s.observers ≡ found
      → opened_or_panic (to_observers f s j found) ≡ some t
      → Answers s j f t
  to_observers-Answers s t j f none e h = absurd (ground arith)
  to_observers-Answers s t j f (some os) e h = by_load (load os j) h
    where
      by_load :
          (o : Option Observer)
          → opened_or_panic (to_observer f s j os o) ≡ some t
          → Answers s j f t
      by_load none h' = absurd (ground arith)
      by_load (some so) h' = (os, so, e, sym cc)

  pub open_stream-Opened :
      (client : Client) (s t : Stream) (j : ℕ)
      → opened_or_panic (open_stream client s j) ≡ some t
      → Opened client s j t
  unfolding open_stream
  open_stream-Opened client s t j h = by_offset (load s.offsets j) refl h
    where
      by_answer :
          (o : Offset) (r : Option (Observer → Observer))
          → load s.offsets j ≡ some o
          → client j o ≡ r
          → opened_or_panic (opened_with s j r) ≡ some t
          → Opened client s j t
      by_answer o none at says h' = absurd (ground arith)
      by_answer o (some f) at says h' =
          let (os, so, e, is) = to_observers-Answers s t j f s.observers refl h' in
          (o, f, os, so, at, says, e, is)

      by_offset :
          (r : Option Offset)
          → load s.offsets j ≡ r
          → opened_or_panic (open_at client s j r) ≡ some t
          → Opened client s j t
      by_offset none at h' = absurd (ground arith)
      by_offset (some o) at h' = by_answer o (client j o) at refl h'

  -- `uuid` has the histories that the server is at.
  module _ (uuid : ℕ → ℕ) where
    abbrev pub HasHistory : Stream → ℕ → Type 0
    HasHistory s j =
        (os : ConcurrentSwissMap ℕ Observer) × (so : Observer) × (s.observers ≡ some os)
        × (load os j ≡ some so)
        × (so.vb_uuid ≡ uuid j)

    -- What events do to a stream while others open: an offset may move on, and stays otherwise; an
    -- observer stays, in its history; the range and the mitigation stay.
    pub record GoesOn (s t : Stream) : Type 0 where
      pub moves_on :
          (j : ℕ) (o : Offset)
          → load s.offsets j ≡ some o
          → (o' : Offset) × (load t.offsets j ≡ some o') × (o.seq_no ≤ o'.seq_no)
      pub observes : (j : ℕ) → HasHistory s j → HasHistory t j
      pub same_range : t.vb_id_range ≡ s.vb_id_range
      pub same_mitigation : t.mitigation_disabled ≡ s.mitigation_disabled

    pub GoesOn-refl : (s : Stream) → GoesOn s s
    GoesOn-refl s = record {
      moves_on = λ j o h. (o, h, omega arith);
      observes = λ j h. h;
      same_range = refl;
      same_mitigation = refl;
    }

    pub GoesOn-trans : {s t u : Stream} → GoesOn s t → GoesOn t u → GoesOn s u
    GoesOn-trans p q = record {
      moves_on = λ j o h.
          let (o', there, le) = p.moves_on j o h in
          let (o'', last, le') = q.moves_on j o' there in (o'', last, omega arith);
      observes = λ j h. q.observes j (p.observes j h);
      same_range = q.same_range ∙ p.same_range;
      same_mitigation = q.same_mitigation ∙ p.same_mitigation;
    }

    abbrev pub SetsHistory : Client → Type 0
    SetsHistory client =
        (j : ℕ) (o : Offset) (f : Observer → Observer)
        → client j o ≡ some f
        → (so : Observer) → (f so).vb_uuid ≡ uuid j

    stored-HasHistory :
        (s : Stream) (os : ConcurrentSwissMap ℕ Observer) (j k : ℕ) (so : Observer)
        → s.observers ≡ some os
        → so.vb_uuid ≡ uuid j
        → HasHistory s k
        → HasHistory (record s { observers = some (store os j so) }) k
    stored-HasHistory s os j k so here set (os', so', there, found, kept) =
        let same : os' ≡ os = cc in
        elim (Bool-cases (nat_comparable.beq j k)) [
          | inl e ↦ (
            store os j so,
            so,
            refl,
            load-store os j k so ∙ rw e refl,
            set ∙ ap uuid ((nat_comparable.beq_iff j k).0 e),
          )
          | inr e ↦ (
            store os j so,
            so',
            refl,
            load-store os j k so ∙ rw e (ap (λ m. load m k) (sym same) ∙ found),
            kept,
          )
        ]

    Opened-HasHistory :
        (client : Client) (s t : Stream) (j : ℕ)
        → SetsHistory client
        → Opened client s j t
        → HasHistory t j
    Opened-HasHistory client s t j sets (o, f, os, so, at, says, here, is) =
        subst (λ (u : Stream). HasHistory u j) (sym is)
          (
            store os j (f so),
            f so,
            refl,
            load-store os j j (f so) ∙ rw ((nat_comparable.beq_iff j j).1 refl) refl,
            sets j o f says so,
          )

    pub Opened-GoesOn :
        (client : Client) (s t : Stream) (j : ℕ)
        → SetsHistory client
        → Opened client s j t
        → GoesOn s t
    Opened-GoesOn client s t j sets (o, f, os, so, at, says, here, is) =
        subst (λ (u : Stream). GoesOn s u) (sym is)
          (record {
            moves_on = λ k o' h. (o', h, omega arith);
            observes = λ k h. stored-HasHistory s os j k (f so) here (sets j o f says so) h;
            same_range = refl;
            same_mitigation = refl;
          })

    -- The client opened the stream of a vBucket, at an offset that is not behind the one of the first
    -- stream, and the last one has an observer for it in its history.
    abbrev pub IsReady : Client → Stream → Stream → ℕ → Type 0
    IsReady client s t j =
        (o : Offset) × (f : Observer → Observer) × (client j o ≡ some f)
        × ((first : Offset) → load s.offsets j ≡ some first → first.seq_no ≤ o.seq_no)
        × HasHistory t j

    pub IsReady-GoesOn :
        (client : Client) (s t u : Stream) (j : ℕ)
        → GoesOn t u
        → IsReady client s t j
        → IsReady client s u j
    IsReady-GoesOn client s t u j goes (o, f, says, le, h) = (o, f, says, le, goes.observes j h)

    pub Opened-IsReady :
        (client : Client) (s m t : Stream) (j : ℕ)
        → SetsHistory client
        → GoesOn s m
        → Opened client m j t
        → IsReady client s t j
    Opened-IsReady client s m t j sets goes (o, f, os, so, at, says, here, is) = (
      o,
      f,
      says,
      (λ first known.
          let (o', there, le) = goes.moves_on j first known in
          let same : o' ≡ o = cc in subst (λ (x : Offset). first.seq_no ≤ x.seq_no) same le),
      Opened-HasHistory client m t j sets (o, f, os, so, at, says, here, is),
    )
