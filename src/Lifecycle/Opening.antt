-- ===== src/Lifecycle/Opening.antt =====
-- What Open of stream/stream.go leaves when it returns.
use go_dcp.Prelude.{
  ℕ, ◌⊎◌, Bool, ◌≤◌, ◌≡◌, refl, sym, ap, subst, ◌∙◌, inl, inr, true, ◌||◌, Option, none, some, List,
  [], ◌∷◌, nat_comparable, arith, ◌>>=◌,
}
use go_dcp.Wrapper.{CsMap, load}
use go_dcp.Models.{Offset, VbIdRange}
use go_dcp.Discovery.{range_of}
use go_dcp.Observer.{Observer}
use go_dcp.Stream.{Stream}
use go_dcp.Checkpoint.{Offsets}
use go_dcp.Lifecycle.Defs.{open_stream, opened_or_panic, open_all_streams, prepared, stream_open}
use go_dcp.Lifecycle.Attempts.{
  Client, GoesOn, GoesOn-refl, GoesOn-trans, HasHistory, SetsHistory, IsReady, open_stream-Opened,
  Opened-GoesOn, IsReady-GoesOn, Opened-IsReady,
}

abbrev pub IsIn : ℕ → List ℕ → Type 0
IsIn j [] = ⊥
IsIn j (x ∷ xs) = (x ≡ j) ⊎ IsIn j xs

module _ ⦃cs : CsMap ℕ⦄ (uuid : ℕ → ℕ) where
  module _ (client : Client) (meanwhile : ℕ → Stream → Stream) (sets : SetsHistory uuid client)
      (goes : (j : ℕ) (t : Stream) → GoesOn uuid t (meanwhile j t)) where
    open_all_streams-IsReady :
        (first s t : Stream) (vb_ids : List ℕ)
        → GoesOn uuid first s
        → open_all_streams client meanwhile s vb_ids ≡ some t
        → GoesOn uuid s t × ((j : ℕ) → IsIn j vb_ids → IsReady uuid client first t j)
    unfolding open_all_streams
    open_all_streams-IsReady first s t [] before h =
        let same : s ≡ t = cc in
        (
          subst (λ (u : Stream). GoesOn uuid s u) same (GoesOn-refl uuid s),
          λ j none_left. absurd none_left,
        )
    open_all_streams-IsReady first s t (v ∷ vs) before h =
        by_attempt (λ s' earlier h'. open_all_streams-IsReady first s' t vs earlier h')
          (opened_or_panic (open_stream client (meanwhile v s) v)) refl h
      where
        Ends : Stream → Type 0
        Ends s' =
            GoesOn uuid first s'
            → open_all_streams client meanwhile s' vs ≡ some t
            → GoesOn uuid s' t × ((j : ℕ) → IsIn j vs → IsReady uuid client first t j)

        by_attempt :
            ((s' : Stream) → Ends s')
            → (r : Option Stream) → opened_or_panic (open_stream client (meanwhile v s) v) ≡ r
            → (r >>= λ s'. open_all_streams client meanwhile s' vs) ≡ some t
            → GoesOn uuid s t × ((j : ℕ) → IsIn j (v ∷ vs) → IsReady uuid client first t j)
        by_attempt ends none e h' = absurd (ground arith)
        by_attempt ends (some s') e h' =
            let done = open_stream-Opened client (meanwhile v s) s' v e in
            let early = GoesOn-trans uuid before (goes v s) in
            let step = Opened-GoesOn uuid client (meanwhile v s) s' v sets done in
            let (later, ready) = ends s' (GoesOn-trans uuid early step) h' in
            (
              GoesOn-trans uuid (GoesOn-trans uuid (goes v s) step) later,
              λ j among. elim among [
                | inl here ↦ subst (IsReady uuid client first t) here (
                    IsReady-GoesOn uuid client first s' t v later
                      (Opened-IsReady uuid client first (meanwhile v s) s' v sets early done))
                | inr rest ↦ ready j rest
              ],
            )

    -- The client sets the histories of the observers to those of the server, and what events do
    -- while the streams open is as GoesOn says. When Open returns, however the openings were
    -- ordered, the stream is open; the server has opened each vBucket that the discovery gave, at
    -- an offset that is not behind the one that the checkpoint loaded for it; each has an observer
    -- that is in the server's history; the range is that of the discovery, and rollback mitigation
    -- is off on an ephemeral bucket.
    pub stream_open_lem :
        (opening : List ℕ → List ℕ) (s s' : Stream) (vb_ids : List ℕ) (is_ephemeral : Bool)
        → (all : Offsets) → ((j : ℕ) → IsIn j vb_ids → IsIn j (opening vb_ids))
        → stream_open client meanwhile opening s vb_ids is_ephemeral (some all) ≡ some s'
        → (s'.open_ ≡ true)
          × ((j : ℕ)
              → IsIn j vb_ids
              → (o : Offset) × (f : Observer → Observer) × (client j o ≡ some f)
                × ((first : Offset) → load all.0 j ≡ some first → first.seq_no ≤ o.seq_no)
                × HasHistory uuid s' j)
          × (some s'.vb_id_range ≡ range_of vb_ids)
          × (s'.mitigation_disabled ≡ (s.mitigation_disabled || is_ephemeral))
    unfolding stream_open
    stream_open_lem opening s s' vb_ids is_ephemeral all covers h =
        by_range (range_of vb_ids) refl h
      where
        Result : Stream → Type 0
        Result u =
            (u.open_ ≡ true)
            × ((j : ℕ)
                → IsIn j vb_ids
                → (o : Offset) × (f : Observer → Observer) × (client j o ≡ some f)
                  × ((first : Offset) → load all.0 j ≡ some first → first.seq_no ≤ o.seq_no)
                  × HasHistory uuid u j)
            × (some u.vb_id_range ≡ range_of vb_ids)
            × (u.mitigation_disabled ≡ (s.mitigation_disabled || is_ephemeral))

        by_opening :
            (r : VbIdRange) (o : Option Stream)
            → range_of vb_ids ≡ some r
            → open_all_streams client meanwhile
                (prepared s r vb_ids is_ephemeral all)
                (opening vb_ids)
              ≡ o
            → (o >>= λ t. some (record t { open_ = true })) ≡ some s'
            → Result s'
        by_opening r none known e h' = absurd (ground arith)
        by_opening r (some t) known e h' =
            let p = prepared s r vb_ids is_ephemeral all in
            let (grown, ready) =
              open_all_streams-IsReady p p t (opening vb_ids) (GoesOn-refl uuid p) e in
            let is : record t { open_ = true } ≡ s' = cc in
            subst Result is (
              refl,
              (λ j among. ready j (covers j among)),
              ap some grown.same_range ∙ sym known,
              grown.same_mitigation,
            )

        by_range :
            (r : Option VbIdRange)
            → range_of vb_ids ≡ r
            → (r >>= λ vb_id_range.
                open_all_streams client meanwhile
                  (prepared s vb_id_range vb_ids is_ephemeral all)
                  (opening vb_ids)
                >>= λ t. some (record t { open_ = true }))
              ≡ some s'
            → Result s'
        by_range none known h' = absurd (ground arith)
        by_range (some r) known h' = by_opening r _ known refl h'
