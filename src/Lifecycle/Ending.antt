-- ===== src/Lifecycle/Ending.antt =====
-- When a stream of stream/stream.go has ended, and when one of its vBuckets is given up.
use go_dcp.Prelude.{
  ℕ, zero, suc, ◌+◌, ◌-◌, ◌^◌, ◌≤◌, ◌<◌, ◌≡◌, ◌≢◌, refl, sym, ap, subst, ltb, leb, leb→le,
  leb→le_false, Bool-cases, ◌∙◌, inl, inr, Bool, false, not, ◌&&◌, Option, none, some, List, [],
  ◌∷◌, nat_comparable, length, arith, ◌==◌, Option-cases, if◌then◌else◌, ◌>>=◌,
}
use go_dcp.Wrapper.{CsMap}
use go_dcp.Stream.{Stream}
use go_dcp.Lifecycle.Defs.{
  EndError, reopens, one_less, ended, listen_end, reopen_loop, reopen_stream,
}

module _ {ℓ} {E : Type ℓ} (answer : ℕ → Option E) where
  loop_stops : (retry i : ℕ) → answer i ≡ none → reopen_loop answer (suc retry) i ≡ some i
  unfolding reopen_loop
  loop_stops retry i ok = rw (ok, reopen_loop)

  loop_goes_on :
      (retry i : ℕ)
      → answer i ≢ none
      → reopen_loop answer (suc retry) i ≡ reopen_loop answer retry (i + 1)
  unfolding reopen_loop
  loop_goes_on retry i failed = elim (Option-cases (answer i)) [
    | inl ok ↦ absurd (failed ok)
    | inr (err, e) ↦ rw (e, reopen_loop)
  ]

  -- The first attempt from i on that works, among the next few, or none.
  abbrev pub HasFirst : ℕ → ℕ → Option ℕ → Type ℓ
  HasFirst i retry none = (n : ℕ) → i ≤ n → n < i + retry → answer n ≢ none
  HasFirst i retry (some k) =
      (i ≤ k) × (k < i + retry) × (answer k ≡ none) × ((n : ℕ) → i ≤ n → n < k → answer n ≢ none)

  is_here : (i n : ℕ) → i ≤ n → n ≤ i → i ≡ n
  is_here i n lo hi = omega arith

  HasFirst-later :
      (i retry : ℕ) (r : Option ℕ)
      → answer i ≢ none
      → HasFirst (i + 1) retry r
      → HasFirst i (suc retry) r
  HasFirst-later i retry none failed h = λ n lo hi same. elim (Bool-cases (leb n i)) [
    | inl here ↦ failed (ap answer (is_here i n lo (leb→le n i here)) ∙ same)
    | inr other ↦ h n (omega (arith, leb→le_false n i other)) (omega arith) same
  ]
  HasFirst-later i retry (some k) failed (lo, hi, ok, before) =
      (omega arith, omega arith, ok, earlier)
    where
      earlier : (n : ℕ) → i ≤ n → n < k → answer n ≢ none
      earlier n from_i to_k same = elim (Bool-cases (leb n i)) [
        | inl here ↦ failed (ap answer (is_here i n from_i (leb→le n i here)) ∙ same)
        | inr other ↦ before n (omega (arith, leb→le_false n i other)) to_k same
      ]

  reopen_loop-HasFirst : (retry i : ℕ) → HasFirst i retry (reopen_loop answer retry i)
  unfolding reopen_loop
  reopen_loop-HasFirst zero i = λ n lo hi same. omega arith
  reopen_loop-HasFirst (suc retry) i = elim (Option-cases (answer i)) [
    | inl ok ↦
        subst (HasFirst i (suc retry)) (sym (loop_stops retry i ok))
          (omega arith, omega arith, ok, λ n lo hi same. omega arith)
    | inr (err, e) ↦
        let failed : answer i ≢ none = λ same. cc in
        subst (HasFirst i (suc retry)) (sym (loop_goes_on retry i failed)) (
          HasFirst-later i retry (reopen_loop answer retry (i + 1)) failed
            (reopen_loop-HasFirst retry (i + 1)))
  ]

  -- After an end that asks for it, a stream is opened again at the first of five attempts that
  -- works; when all five fail, the program gives up by a panic.
  pub reopen_stream_lem : HasFirst 0 5 (reopen_stream answer)
  unfolding reopen_stream
  reopen_stream_lem = reopen_loop-HasFirst 5 0

module _ ⦃cs : CsMap ℕ⦄ where
  -- A run of end events.
  abbrev pub listen_ends : Stream → List (ℕ × EndError) → Option Stream
  listen_ends s [] = some s
  listen_ends s ((vb_id, err) ∷ es) = listen_end s vb_id err >>= λ r. listen_ends r.0 es

  -- No end of these opens a vBucket again.
  abbrev pub AreFinal : Bool → List (ℕ × EndError) → Type 0
  AreFinal cancelled [] = Unit
  AreFinal cancelled ((vb_id, err) ∷ es) =
      ((not cancelled && reopens err) ≡ false) × AreFinal cancelled es

  listen_end-final :
      (s : Stream) (vb_id : ℕ) (err : EndError)
      → s.stream_end_not_supported ≡ none
      → (not s.close_with_cancel && reopens err) ≡ false
      → listen_end s vb_id err ≡ some (ended s, [])
  unfolding listen_end
  listen_end-final s vb_id err supported final = rw (supported, final)

  -- One end more.
  ended_lem :
      (s : Stream)
      → s.stream_finished_with_close ≡ false
      → 0 < s.active_streams
      → s.active_streams < 2 ^ 32
      → ((ended s).stream_end_not_supported ≡ s.stream_end_not_supported)
        × ((ended s).stream_finished_with_close ≡ s.stream_finished_with_close)
        × ((ended s).close_with_cancel ≡ s.close_with_cancel)
        × ((ended s).active_streams ≡ s.active_streams - 1)
        × ((ended s).finish_with_end_event_ch ≡ (
            if s.active_streams == 1
            then s.finish_with_end_event_ch + 1
            else s.finish_with_end_event_ch))
  ended_lem s running some_left small =
      let less : one_less s.active_streams ≡ s.active_streams - 1 = omega arith in
      ground (arith, less)

  -- A stream has ended when the last of its vBuckets has: while it has at most 2 ^ 32 - 1 active
  -- streams and no close has been heard of, each end that opens no vBucket again takes one off the
  -- active streams, and the message that the stream has finished is sent once, by the end that
  -- takes off the last one, and by none before it. This is for a server that reports ends.
  pub listen_ends_lem :
      (s : Stream) (es : List (ℕ × EndError))
      → s.stream_end_not_supported ≡ none
      → s.stream_finished_with_close ≡ false
      → AreFinal s.close_with_cancel es
      → length es ≤ s.active_streams
      → s.active_streams < 2 ^ 32
      → (s' : Stream) × (listen_ends s es ≡ some s')
        × (s'.active_streams ≡ s.active_streams - length es)
        × (s'.finish_with_end_event_ch ≡ (
            if ltb 0 (length es) && length es == s.active_streams
            then s.finish_with_end_event_ch + 1
            else s.finish_with_end_event_ch))
  listen_ends_lem s [] supported running final fits small = (s, refl, omega arith, refl)
  listen_ends_lem s ((vb_id, err) ∷ es) supported running final fits small =
      let (same_support, same_close, same_cancel, less, told) =
        ended_lem s running (omega arith) small in
      let step = listen_end-final s vb_id err supported final.0 in
      let (s', ends, count, sent) =
        listen_ends_lem (ended s) es (same_support ∙ supported) (same_close ∙ running)
          (subst (λ b. AreFinal b es) (sym same_cancel) final.1) (omega (arith, less))
          (omega (arith, less)) in
      (s', rw step ends, omega (arith, less, count), ground (arith, sent, told, less))
