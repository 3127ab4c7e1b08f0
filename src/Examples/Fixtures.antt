-- ===== src/Examples/Fixtures.antt =====
-- A small stream, its events, and a cluster that holds documents in a list.
use go_dcp.Prelude.{ℕ, Bool, true, false, none, some, [], nat_comparable, codes}
use go_dcp.Wrapper.{CsMap, create, store}
use go_dcp.Wrapper.Assoc.{assoc}
use go_dcp.Models.{SnapshotMarker, Offset, Item, InternalItem}
use go_dcp.Stream.{Stream}
use go_dcp.Observer.{Observer, new_observer}

instance abbrev pub nat_table : CsMap ℕ
nat_table = assoc

abbrev pub snapshot_10_20 : SnapshotMarker
snapshot_10_20 = record { start_seq_no = 10; end_seq_no = 20 }

abbrev pub offset_at : ℕ → Offset
offset_at n = record { snapshot = snapshot_10_20; vb_uuid = 77; seq_no = n; latest_seq_no = 100 }

abbrev pub item_at : ℕ → Item
item_at n = record {
  vb_id = 3;
  seq_no = n;
  rev_no = 1;
  cas = 5000000001;
  collection_id = 8;
  key = codes "order";
  value = [];
}

abbrev pub stream_at_10 : Stream
stream_at_10 = record {
  vb_id_range = record { start = 0; end = 7 };
  offsets = store (create Offset 1024) 3 (offset_at 10);
  dirty_offsets = create Bool 1024;
  any_dirty_offset = false;
  observers = none;
  collection_ids = [];
  stream_end_not_supported = none;
  mitigation_disabled = true;
  mitigation_observed = true;
  skip_until = none;
  rebalance_count = 0;
  rebalance_timer = none;
  rebalance_locked = false;
  active_streams = 1;
  balancing = false;
  close_with_cancel = false;
  open_ = true;
  stream_finished_with_close = false;
  stream_finished_with_end_event = false;
  finish_with_close_ch = 0;
  finish_with_end_event_ch = 0;
  stop_closed = false;
}

abbrev pub internal_item : ℕ → InternalItem
internal_item n = record {
  event_time = 5000000000;
  item = item_at n;
  offset = offset_at n;
  collection_name = "_default";
}

abbrev pub open_observer : Observer
open_observer = record (new_observer true none 3 100 []) { current_snapshot = some snapshot_10_20 }
