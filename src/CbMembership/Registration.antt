-- ===== src/CbMembership/Registration.antt =====
-- couchbase/membership.go: how an instance enters its group and stays in it. What the operations of
-- couchbase/doc_op.go answer is an argument; the writes are listed in their order. A panic is `none`.
use go_dcp.Prelude.{
  ℕ, Bool, true, false, Option, none, some, List, [], ◌∷◌, String, ◌>>=◌, if◌then◌else◌,
}
use go_dcp.Config.Types.{Dcp}
use go_dcp.Config.Views.{is_couchbase_metadata}
use go_dcp.CbMembership.Defs.{Instance, CbMembership, index_of}

-- A key of the index set to a time of joining, the document of an instance set or added with the
-- times of its heartbeat and of its joining, or the whole index set.
pub data Write : Type 0 where
  set_path : String → ℕ → Write
  update_document add_document : String → ℕ → ℕ → Write
  set_index : List (String × ℕ) → Write

pub data Answer : Type 0 where
  done key_not_found other_error : Answer

abbrev pub is_done : Answer → Bool
is_done done = true
is_done key_not_found = false
is_done other_error = false

-- What the four writes of register answer, as far as it makes them.
pub record Answers : Type 0 where
  pub create_path : Answer
  pub first_update : Answer
  pub create_document : Answer
  pub second_update : Answer

-- From the first update of the document on, which is there already when a name is used again.
abbrev pub write_document : String → ℕ → Answers → Option (List Write)
write_document id now answers = by_answer answers.first_update
  where
    update : Write
    update = update_document id now now

    by_answer : Answer → Option (List Write)
    by_answer done = some (update ∷ [])
    by_answer key_not_found =
        if is_done answers.create_document
        then if is_done answers.second_update
          then some (update ∷ add_document id now now ∷ update ∷ [])
          else none
        else none
    by_answer other_error = none

unfoldable pub register : ℕ → Answers → CbMembership → Option (CbMembership × List Write)
register now answers h =
    if is_done answers.create_path
    then (write_document h.id now answers >>= λ writes.
        some (record h { cluster_join_time = now }, set_path h.id now ∷ writes))
    else none

-- The error of a heartbeat is only logged.
unfoldable pub heartbeat : ℕ → CbMembership → List Write
heartbeat now h = update_document h.id now h.cluster_join_time ∷ []

unfoldable pub update_index : List Instance → Write
unfolding index_of
update_index instances = set_index (index_of instances)

-- NewCBMembership, with the id that it makes up and the wait of isAlive; the goroutines run their
-- rounds, heartbeat and monitor.
unfoldable pub new_cb_membership :
    ℕ → Answers → String → ℕ → Dcp → Option (CbMembership × List Write)
unfolding register is_couchbase_metadata
new_cb_membership now answers id upper_wait_limit config =
    if is_couchbase_metadata config
    then register now answers (record {
      id = id;
      info = none;
      cluster_join_time = 0;
      last_active_instances = [];
      upper_wait_limit = upper_wait_limit;
      heartbeat_running = true;
      monitor_running = true;
    })
    else none
