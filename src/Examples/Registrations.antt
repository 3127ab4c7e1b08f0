-- ===== src/Examples/Registrations.antt =====
-- An instance that registers while another looks at the group, for couchbase/membership.go.
use go_dcp.Prelude.{
  ℕ, ◌≡◌, refl, none, some, List, [], ◌∷◌, String, string_comparable, if◌then◌else◌,
}
use go_dcp.CbMembership.{
  Instance, CbMembership, Fetched, fetched, not_available, updated, Round, monitor, sort_ids,
  active_instances, is_alive, is_cluster_changed, index_of,
}
use go_dcp.CbMembership.Registration.{
  Answers, done, key_not_found, register, set_path, update_document, add_document,
}
use go_dcp.CbMembership.Dropped.{NotListed, registering_is_dropped}
use go_dcp.Examples.Groups.{member_b}

abbrev newcomer : CbMembership
newcomer = record member_b { id = "c"; cluster_join_time = 3 }

-- The documents of the two others
abbrev others : String → Fetched
others id = if string_comparable.beq id "c" then not_available else fetched 90 2

abbrev looks : Round
looks = record {
  now = 95;
  index = some (("c", 3) ∷ ("b", 2) ∷ []);
  fetch = others;
  update = updated;
}

abbrev seen : List Instance
seen = record { id = "b"; heartbeat_time = 90; cluster_join_time = 2 } ∷ []

abbrev looks_later : Round
looks_later = record looks { index = some (("b", 2) ∷ []); fetch = λ id. fetched 90 2 }

abbrev all_works : Answers
all_works = record {
  create_path = done;
  first_update = key_not_found;
  create_document = done;
  second_update = done;
}

registers :
    register 7 all_works newcomer
    ≡ some (
      record newcomer { cluster_join_time = 7 },
      set_path "c" 7
          ∷ update_document "c" 7 7
          ∷ add_document "c" 7 7
          ∷ update_document "c" 7 7
          ∷ [],
    )
unfolding register
registers = refl

registering_is_dropped_example :
    (written : List (String × ℕ)) × ((monitor member_b (looks ∷ [])).0 ≡ some written)
    × NotListed "c" written
    × ((monitor newcomer (looks_later ∷ [])).1 ≡ none)
unfolding active_instances sort_ids is_alive is_cluster_changed index_of monitor
registering_is_dropped_example =
    registering_is_dropped member_b newcomer looks looks_later (("c", 3) ∷ ("b", 2) ∷ []) seen seen
      refl refl refl refl refl refl refl refl refl
