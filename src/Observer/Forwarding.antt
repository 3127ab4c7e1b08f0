-- ===== src/Observer/Forwarding.antt =====
-- What the handlers of couchbase/observer.go hand to the listener.
use go_dcp.Prelude.{◌≡◌, refl, ◌∙◌, sym, true, false, not, some, List, arith}
use go_dcp.Models.{
  SnapshotMarker, Item, CollectionChange, Advance, InternalItem, InternalCollection,
  InternalAdvance, Event, dcp_snapshot_marker, dcp_mutation, dcp_deletion, dcp_expiration,
  dcp_collection_creation, dcp_collection_deletion, dcp_collection_flush,
  dcp_collection_modification, dcp_scope_creation, dcp_scope_deletion, dcp_oso_snapshot,
}
use go_dcp.Observer.Defs.{
  Observer, ObserverMetric, Poke, can_forward, is_before_skip_window, is_in_snapshot_marker,
}
use go_dcp.Observer.Handlers.{
  snapshot_marker, forward_item, item_event, mutation, deletion, expiration, collection_event,
  create_collection, delete_collection, flush_collection, modify_collection, scope_event,
  create_scope, delete_scope, oso_snapshot, seq_no_advanced, DcpEvent, on_snapshot_marker,
  on_mutation, on_deletion, on_expiration, on_create_collection, on_delete_collection,
  on_flush_collection, on_modify_collection, on_create_scope, on_delete_scope, on_seq_no_advanced,
  on_oso_snapshot, handle,
}
use go_dcp.Observer.Answers.{
  offset_in, IsSafeAnswer, can_forward-Gate, safe-bind, safe-if, safe-send, IsSafe-offset,
}

module _ (pokes : List Poke) (so : Observer) where
  safe-snapshot_marker : (e : SnapshotMarker) → IsSafeAnswer (snapshot_marker pokes so e)
  unfolding snapshot_marker
  safe-snapshot_marker e = safe-bind (can_forward pokes so e.start_seq_no true) _ λ gate h.
      let so' : Observer = record (gate.1) { current_snapshot = some e } in
      safe-if (not gate.0) _ _ (λ _. tt)
        (λ _. safe-send so' so' (dcp_snapshot_marker e) (λ c. (c, tt)))

  safe-item :
      (make : InternalItem → Event) (add : ObserverMetric → ObserverMetric) (e : Item)
      → ((i : InternalItem) → offset_in (make i) ≡ some i.offset)
      → IsSafeAnswer (item_event make add pokes so e)
  unfolding item_event forward_item
  safe-item make add e has_offset = safe-bind (can_forward pokes so e.seq_no false) _ λ gate h.
      let so' : Observer = record (gate.1) { metrics = add gate.1.metrics } in
      safe-if (not gate.0) _ _ (λ _. tt)
        (λ _.
          safe-if (is_before_skip_window gate.1 _) _ _ (λ _. tt)
            (λ _. safe-bind (is_in_snapshot_marker gate.1.current_snapshot e.seq_no) _ λ s inside.
              safe-send gate.1 so' _ λ c. (
                c,
                rw has_offset (
                    IsSafe-offset gate.1 s e.seq_no (can_forward-Gate pokes so e.seq_no false h) c
                      inside),
              )))

  safe-collection :
      (make : InternalCollection → Event) (e : CollectionChange)
      → ((i : InternalCollection) → offset_in (make i) ≡ some i.offset)
      → IsSafeAnswer (collection_event make pokes so e)
  unfolding collection_event
  safe-collection make e has_offset = safe-bind (can_forward pokes so e.seq_no false) _ λ gate h.
      safe-if (not gate.0) _ _ (λ _. tt)
        (λ _. safe-bind (is_in_snapshot_marker gate.1.current_snapshot e.seq_no) _ λ s inside.
          safe-send gate.1 gate.1 _ λ c. (
            c,
            rw has_offset (
                IsSafe-offset gate.1 s e.seq_no (can_forward-Gate pokes so e.seq_no false h) c
                  inside),
          ))

  safe-scope :
      (make : InternalAdvance → Event) (e : Advance)
      → ((i : InternalAdvance) → offset_in (make i) ≡ some i.offset)
      → IsSafeAnswer (scope_event make pokes so e)
  unfolding scope_event
  safe-scope make e has_offset = safe-bind (can_forward pokes so e.seq_no false) _ λ gate h.
      safe-if (not gate.0) _ _ (λ _. tt)
        (λ _. safe-bind (is_in_snapshot_marker gate.1.current_snapshot e.seq_no) _ λ s inside.
          safe-send gate.1 gate.1 _ λ c. (
            c,
            rw has_offset (
                IsSafe-offset gate.1 s e.seq_no (can_forward-Gate pokes so e.seq_no false h) c
                  inside),
          ))

  safe-seq_no_advanced : (e : Advance) → IsSafeAnswer (seq_no_advanced pokes so e)
  unfolding seq_no_advanced
  safe-seq_no_advanced e = safe-bind (can_forward pokes so e.seq_no true) _ λ gate h.
      let snapshot : SnapshotMarker = record { start_seq_no = e.seq_no; end_seq_no = e.seq_no } in
      let so' : Observer = record (gate.1) { current_snapshot = some snapshot } in
      let g = can_forward-Gate pokes so e.seq_no true h in
      safe-if (not gate.0) _ _ (λ _. tt)
        (λ _. safe-send so' so' _ λ c. (
          c,
          (
            omega arith,
            omega arith,
            refl,
            refl,
            refl,
            λ on. g.reached (sym g.later.same_mitigation ∙ on) c,
          ),
        ))

-- Whatever event an observer handles, and whatever happens to it while it waits: if the handler
-- returns, each event that it handed to the listener was handed by an observer that is not closed,
-- and an offset in such an event lies within the bounds of its snapshot, which is the observer's
-- current one, has the observer's vbUUID and latest sequence number, and, with rollback
-- mitigation on, is not beyond the persisted sequence number.
pub handle-IsSafeAnswer :
    (pokes : List Poke) (so : Observer) (e : DcpEvent) → IsSafeAnswer (handle pokes so e)
unfolding handle mutation deletion expiration create_collection delete_collection flush_collection
    modify_collection create_scope delete_scope oso_snapshot
handle-IsSafeAnswer pokes so (on_snapshot_marker e) = safe-snapshot_marker pokes so e
handle-IsSafeAnswer pokes so (on_mutation e) = safe-item pokes so dcp_mutation _ e (λ i. refl)
handle-IsSafeAnswer pokes so (on_deletion e) = safe-item pokes so dcp_deletion _ e (λ i. refl)
handle-IsSafeAnswer pokes so (on_expiration e) = safe-item pokes so dcp_expiration _ e (λ i. refl)
handle-IsSafeAnswer pokes so (on_create_collection e) =
    safe-collection pokes so dcp_collection_creation e (λ i. refl)
handle-IsSafeAnswer pokes so (on_delete_collection e) =
    safe-collection pokes so dcp_collection_deletion e (λ i. refl)
handle-IsSafeAnswer pokes so (on_flush_collection e) =
    safe-collection pokes so dcp_collection_flush e (λ i. refl)
handle-IsSafeAnswer pokes so (on_modify_collection e) =
    safe-collection pokes so dcp_collection_modification e (λ i. refl)
handle-IsSafeAnswer pokes so (on_create_scope e) =
    safe-scope pokes so dcp_scope_creation e (λ i. refl)
handle-IsSafeAnswer pokes so (on_delete_scope e) =
    safe-scope pokes so dcp_scope_deletion e (λ i. refl)
handle-IsSafeAnswer pokes so (on_seq_no_advanced e) = safe-seq_no_advanced pokes so e
handle-IsSafeAnswer pokes so (on_oso_snapshot e) =
    safe-send so so (dcp_oso_snapshot e) (λ c. (c, tt))
