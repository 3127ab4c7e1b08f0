-- ===== src/Observer/Catchup.antt =====
-- Catching up after a rollback (couchbase/observer.go): of the items that the server sends again,
-- those up to the failed sequence number are dropped and all later ones are forwarded.
use go_dcp.Prelude.{
  ℕ, ◌≤◌, ◌<◌, ◌≡◌, refl, ◌⊎◌, inl, inr, Bool, true, false, none, some, List, [], ◌∷◌, ◌++◌, map,
  arith, All, ltb, lt→ltb, ltb→lt, ltb→lt_false, le→ltb_false, Bool-cases, if◌then◌else◌,
}
use go_dcp.Models.{SnapshotMarker, Item, InternalItem, Event, event_time_of}
use go_dcp.Observer.Outcomes.{done, ◌>>=◌}
use go_dcp.Observer.Defs.{
  Observer, ObserverMetric, set_catchup, within, offset_of, convert_to_collection_name,
}
use go_dcp.Observer.Handlers.{Handled, item_event}

-- The handler of one kind of item, one item after the other.
pub handle_items :
    (InternalItem → Event) → (ObserverMetric → ObserverMetric) → Observer → List Item → Handled
handle_items make add so [] = done (so, [])
handle_items make add so (e ∷ es) = do
  first ← item_event make add [] so e
  rest ← handle_items make add first.0 es
  done (rest.0, first.1 ++ rest.1)

-- The event that is forwarded for an item in a given snapshot.
abbrev pub sent : (InternalItem → Event) → Observer → SnapshotMarker → Item → Event
sent make so s e = make (record {
  event_time = event_time_of e.cas;
  item = e;
  offset = offset_of so s e.seq_no;
  collection_name = convert_to_collection_name so e.collection_id;
})

-- The items behind a sequence number.
abbrev pub above : ℕ → List Item → List Item
above c [] = []
above c (e ∷ es) = if ltb c e.seq_no then e ∷ above c es else above c es

abbrev pub InOrder : List Item → Type 0
InOrder [] = Unit
InOrder (e ∷ []) = Unit
InOrder (e ∷ f ∷ es) = (e.seq_no < f.seq_no) × InOrder (f ∷ es)

-- An open observer without rollback mitigation and skip window, in the snapshot `s`.
pub record IsPlain (so : Observer) (s : SnapshotMarker) : Type 0 where
  pub mitigation_off : so.mitigation_disabled ≡ true
  pub no_window : so.skip_until ≡ none
  pub is_open : so.closed ≡ false
  pub snapshot : so.current_snapshot ≡ some s

module _ (make : InternalItem → Event) (add : ObserverMetric → ObserverMetric)
    (s : SnapshotMarker) where
  abbrev counted : Observer → Observer
  counted so = record so { metrics = add so.metrics; is_catchup_need = false }

  forwards :
      (so : Observer) (e : Item)
      → IsPlain so s
      → within (some s) e.seq_no ≡ true
      → (so.is_catchup_need ≡ false) ⊎ (so.catchup_seq_no < e.seq_no)
      → item_event make add [] so e ≡ done (counted so, sent make so s e ∷ [])
  unfolding item_event
  forwards so e p inside past = ground arith

  drops :
      (so : Observer) (e : Item)
      → IsPlain so s
      → so.is_catchup_need ≡ true
      → e.seq_no ≤ so.catchup_seq_no
      → item_event make add [] so e
        ≡ done (record so { is_catchup_need = ltb e.seq_no so.catchup_seq_no }, [])
  unfolding item_event
  drops so e p need low = ground arith

  later-All :
      (c : ℕ) (e : Item) (es : List Item)
      → InOrder (e ∷ es)
      → c ≤ e.seq_no
      → All (λ f. c < f.seq_no) es
  later-All c e [] o h = tt
  later-All c e (f ∷ es) o h = (omega arith, later-All c f es o.1 (omega arith))

  InOrder-tail : (e : Item) (es : List Item) → InOrder (e ∷ es) → InOrder es
  InOrder-tail e [] o = tt
  InOrder-tail e (f ∷ es) o = o.1

  -- Either the catch-up is over and only later items come, or it is not.
  abbrev Stage : Observer → List Item → Type 0
  Stage so es =
      ((so.is_catchup_need ≡ false) × All (λ f. so.catchup_seq_no < f.seq_no) es)
      ⊎ (so.is_catchup_need ≡ true)

  abbrev Sends : Observer → List Item → Type 0
  Sends so es =
      (so' : Observer) × (handle_items make add so es
        ≡ done (so', map (sent make so s) (above so.catchup_seq_no es)))

  Sends-first :
      (so : Observer) (e : Item) (es : List Item)
      → item_event make add [] so e ≡ done (counted so, sent make so s e ∷ [])
      → so.catchup_seq_no < e.seq_no
      → Sends (counted so) es
      → Sends so (e ∷ es)
  unfolding handle_items convert_to_collection_name
  Sends-first so e es first past (so', rest) =
      (so', rw (first, rest, lt→ltb so.catchup_seq_no e.seq_no past))

  skips_first :
      (so : Observer) (b : Bool) (e : Item) (es : List Item)
      → item_event make add [] so e ≡ done (record so { is_catchup_need = b }, [])
      → e.seq_no ≤ so.catchup_seq_no
      → Sends (record so { is_catchup_need = b }) es
      → Sends so (e ∷ es)
  unfolding handle_items convert_to_collection_name
  skips_first so b e es first low (so', rest) =
      (so', rw (first, rest, le→ltb_false so.catchup_seq_no e.seq_no low))

  still_needed :
      (so : Observer) (e : Item) (es : List Item)
      → e.seq_no ≤ so.catchup_seq_no
      → Stage so (e ∷ es)
      → so.is_catchup_need ≡ true
  still_needed so e es low (inl (over, later)) = absurd (omega arith)
  still_needed so e es low (inr need) = need

  next-Stage :
      (so : Observer) (e : Item) (es : List Item)
      → InOrder (e ∷ es)
      → Stage (record so { is_catchup_need = ltb e.seq_no so.catchup_seq_no }) es
  next-Stage so e es order = elim (Bool-cases (ltb e.seq_no so.catchup_seq_no)) [
    | inl more ↦ inr more
    | inr reached ↦ inl (reached, later-All so.catchup_seq_no e es order (ltb→lt_false _ _ reached))
  ]

  Sends-above :
      (so : Observer) (es : List Item)
      → IsPlain so s
      → All (λ e. within (some s) e.seq_no ≡ true) es
      → InOrder es
      → Stage so es
      → Sends so es
  unfolding handle_items
  Sends-above so [] p inside order stage = (so, refl)
  Sends-above so (e ∷ es) p inside order stage =
      elim (Bool-cases (ltb so.catchup_seq_no e.seq_no)) [
        | inl past ↦
            let past' : so.catchup_seq_no < e.seq_no = ltb→lt _ _ past in
            Sends-first so e es (forwards so e p inside.0 (inr past')) past' (
              Sends-above (counted so) es (ground arith) inside.1 (InOrder-tail e es order)
                (inl (refl, later-All so.catchup_seq_no e es order (omega arith))))
        | inr low ↦
            let low' : e.seq_no ≤ so.catchup_seq_no = ltb→lt_false _ _ low in
            let need = still_needed so e es low' stage in
            skips_first so (ltb e.seq_no so.catchup_seq_no) e es (drops so e p need low') low' (
              Sends-above (record so { is_catchup_need = ltb e.seq_no so.catchup_seq_no }) es
                (ground arith) inside.1 (InOrder-tail e es order) (next-Stage so e es order))
      ]

  -- After a rollback to catch up with `c`, an observer with no rollback mitigation and no skip
  -- window that stays open is sent items with increasing sequence numbers, all in its current
  -- snapshot. Then every handler call returns, the items up to and with `c` are dropped, and each
  -- later one is forwarded once, in order, with its own offset. This holds for mutations,
  -- deletions and expirations alike.
  pub catchup_forwards_above :
      (so : Observer) (c : ℕ) (es : List Item)
      → IsPlain so s
      → All (λ e. within (some s) e.seq_no ≡ true) es
      → InOrder es
      → (so' : Observer) × (handle_items make add (set_catchup so c) es
          ≡ done (so', map (sent make so s) (above c es)))
  unfolding set_catchup convert_to_collection_name
  catchup_forwards_above so c es p inside order =
      Sends-above (set_catchup so c) es (ground arith) inside order (inr refl)
