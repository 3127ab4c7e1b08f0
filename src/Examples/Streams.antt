-- ===== src/Examples/Streams.antt =====
-- The stream of stream/stream.go at work.
use go_dcp.Prelude.{◌≤◌, ◌≡◌, refl, ◌⊎◌, inl, inr, some, List, [], ◌∷◌, nat_comparable}
use go_dcp.Wrapper.{load}
use go_dcp.Models.{Offset, in_range, dcp_mutation}
use go_dcp.Stream.Runs.{Step, arrives, acknowledges, run}
use go_dcp.Stream.Progress.{WrittenBy, offset_is_furthest}
use go_dcp.Examples.Fixtures.{nat_table, offset_at, stream_at_10, internal_item}

abbrev two_items : List Step
two_items =
    arrives (dcp_mutation (internal_item 12))
    ∷ arrives (dcp_mutation (internal_item 14))
    ∷ acknowledges 3 (offset_at 14)
    ∷ acknowledges 3 (offset_at 12)
    ∷ []

offset_is_furthest_example :
    (d : Offset) × (load (run stream_at_10 two_items).offsets 3 ≡ some d)
    × (12 ≤ d.seq_no)
    × ((load stream_at_10.offsets 3 ≡ some d) ⊎ WrittenBy 3 d two_items)
unfolding in_range
offset_is_furthest_example =
    offset_is_furthest stream_at_10 two_items 3 (offset_at 12) refl
      (inr (inr (inr (inr (inl (refl, refl))))))
