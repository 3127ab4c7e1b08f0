-- ===== src/Observer/Handlers.antt =====
-- couchbase/observer.go: the handlers that gocbcore calls.
use go_dcp.Prelude.{ℕ, true, false, not, Option, List, [], ◌∷◌, if◌then◌else◌}
use go_dcp.Models.{
  SnapshotMarker, Item, CollectionChange, Advance, InternalItem, InternalCollection,
  InternalAdvance, Event, dcp_snapshot_marker, dcp_mutation, dcp_deletion, dcp_expiration,
  dcp_collection_creation, dcp_collection_deletion, dcp_collection_flush,
  dcp_collection_modification, dcp_scope_creation, dcp_scope_deletion, dcp_seq_no_advanced,
  dcp_oso_snapshot, event_time_of,
}
use go_dcp.Observer.Outcomes.{Outcome, done, ◌>>=◌}
use go_dcp.Observer.Defs.{
  Observer, ObserverMetric, Poke, add_mutation, add_deletion, add_expiration, can_forward,
  is_before_skip_window, convert_to_collection_name, send_or_skip, is_in_snapshot_marker, offset_of,
}

-- The observer after the call, and the events that its listener was called with.
abbrev pub Handled : Type 0
Handled = Outcome (Observer × List Event)

unfoldable pub snapshot_marker : List Poke → Observer → SnapshotMarker → Handled
unfolding can_forward send_or_skip
snapshot_marker pokes so event = do
  gate ← can_forward pokes so event.start_seq_no true
  let so' : Observer = record (gate.1) { current_snapshot = Option.some event }
  if not gate.0 then done (gate.1, []) else done (so', send_or_skip so' (dcp_snapshot_marker event))

-- The shared text of Mutation, Deletion and Expiration, which differ in the event that they make
-- and in the counter that they raise. The counter goes up whether the listener was called or not.
unfoldable pub forward_item :
    (InternalItem → Event) → (ObserverMetric → ObserverMetric) → Observer → Item → Handled
unfolding send_or_skip is_before_skip_window convert_to_collection_name is_in_snapshot_marker
    event_time_of
forward_item make add so event =
    if is_before_skip_window so (event_time_of event.cas) then done (so, []) else do
      snapshot ← is_in_snapshot_marker so.current_snapshot event.seq_no
      done (
        record so { metrics = add so.metrics },
        send_or_skip so (
            make (record {
              event_time = event_time_of event.cas;
              item = event;
              offset = offset_of so snapshot event.seq_no;
              collection_name = convert_to_collection_name so event.collection_id;
            })),
      )

unfoldable pub item_event :
    (InternalItem → Event)
    → (ObserverMetric → ObserverMetric)
    → List Poke
    → Observer
    → Item
    → Handled
unfolding can_forward forward_item
item_event make add pokes so event = do
  gate ← can_forward pokes so event.seq_no false
  if not gate.0 then done (gate.1, []) else forward_item make add gate.1 event

unfoldable pub mutation : List Poke → Observer → Item → Handled
unfolding item_event
mutation = item_event dcp_mutation add_mutation

unfoldable pub deletion : List Poke → Observer → Item → Handled
unfolding item_event
deletion = item_event dcp_deletion add_deletion

unfoldable pub expiration : List Poke → Observer → Item → Handled
unfolding item_event
expiration = item_event dcp_expiration add_expiration

-- The shared text of CreateCollection, DeleteCollection, FlushCollection and ModifyCollection.
unfoldable pub collection_event :
    (InternalCollection → Event) → List Poke → Observer → CollectionChange → Handled
unfolding can_forward send_or_skip convert_to_collection_name is_in_snapshot_marker
collection_event make pokes so event = do
  gate ← can_forward pokes so event.seq_no false
  if not gate.0 then done (gate.1, []) else do
    snapshot ← is_in_snapshot_marker gate.1.current_snapshot event.seq_no
    done (
      gate.1,
      send_or_skip gate.1 (
          make (record {
            change = event;
            offset = offset_of gate.1 snapshot event.seq_no;
            collection_name = convert_to_collection_name gate.1 event.collection_id;
          })),
    )

unfoldable pub create_collection : List Poke → Observer → CollectionChange → Handled
unfolding collection_event
create_collection = collection_event dcp_collection_creation

unfoldable pub delete_collection : List Poke → Observer → CollectionChange → Handled
unfolding collection_event
delete_collection = collection_event dcp_collection_deletion

unfoldable pub flush_collection : List Poke → Observer → CollectionChange → Handled
unfolding collection_event
flush_collection = collection_event dcp_collection_flush

unfoldable pub modify_collection : List Poke → Observer → CollectionChange → Handled
unfolding collection_event
modify_collection = collection_event dcp_collection_modification

-- The shared text of CreateScope and DeleteScope.
unfoldable pub scope_event : (InternalAdvance → Event) → List Poke → Observer → Advance → Handled
unfolding can_forward send_or_skip is_in_snapshot_marker
scope_event make pokes so event = do
  gate ← can_forward pokes so event.seq_no false
  if not gate.0 then done (gate.1, []) else do
    snapshot ← is_in_snapshot_marker gate.1.current_snapshot event.seq_no
    done (
      gate.1,
      send_or_skip gate.1
          (make (record { advance = event; offset = offset_of gate.1 snapshot event.seq_no })),
    )

unfoldable pub create_scope : List Poke → Observer → Advance → Handled
unfolding scope_event
create_scope = scope_event dcp_scope_creation

unfoldable pub delete_scope : List Poke → Observer → Advance → Handled
unfolding scope_event
delete_scope = scope_event dcp_scope_deletion

unfoldable pub oso_snapshot : Observer → ℕ → Handled
unfolding send_or_skip
oso_snapshot so event = done (so, send_or_skip so (dcp_oso_snapshot event))

unfoldable pub seq_no_advanced : List Poke → Observer → Advance → Handled
unfolding can_forward send_or_skip
seq_no_advanced pokes so advanced = do
  gate ← can_forward pokes so advanced.seq_no true
  let snapshot : SnapshotMarker = record {
    start_seq_no = advanced.seq_no;
    end_seq_no = advanced.seq_no;
  }
  let so' : Observer = record (gate.1) { current_snapshot = Option.some snapshot }
  if not gate.0
      then done (gate.1, [])
      else done (
        so',
        send_or_skip so' (
            dcp_seq_no_advanced
              (record { advance = advanced; offset = offset_of so' snapshot advanced.seq_no })),
      )

-- End: what the end listener is called with, the vBucket of the event and the error beside it.
unfoldable pub end_event {ℓ} : {E : Type ℓ} → Observer → ℕ → Option E → List (ℕ × Option E)
end_event so vb_id err = if so.end_closed then [] else (vb_id, err) ∷ []

-- The calls of gocbcore on the interface Observer.
pub data DcpEvent : Type 0 where
  on_snapshot_marker : SnapshotMarker → DcpEvent
  on_mutation on_deletion on_expiration : Item → DcpEvent
  on_create_collection on_delete_collection : CollectionChange → DcpEvent
  on_flush_collection on_modify_collection : CollectionChange → DcpEvent
  on_create_scope on_delete_scope on_seq_no_advanced : Advance → DcpEvent
  on_oso_snapshot : ℕ → DcpEvent

unfoldable pub handle : List Poke → Observer → DcpEvent → Handled
handle pokes so (on_snapshot_marker e) = snapshot_marker pokes so e
handle pokes so (on_mutation e) = mutation pokes so e
handle pokes so (on_deletion e) = deletion pokes so e
handle pokes so (on_expiration e) = expiration pokes so e
handle pokes so (on_create_collection e) = create_collection pokes so e
handle pokes so (on_delete_collection e) = delete_collection pokes so e
handle pokes so (on_flush_collection e) = flush_collection pokes so e
handle pokes so (on_modify_collection e) = modify_collection pokes so e
handle pokes so (on_create_scope e) = create_scope pokes so e
handle pokes so (on_delete_scope e) = delete_scope pokes so e
handle pokes so (on_seq_no_advanced e) = seq_no_advanced pokes so e
handle pokes so (on_oso_snapshot e) = oso_snapshot so e
