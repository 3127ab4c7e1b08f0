-- ===== src/CbMembership/Defs.antt =====
-- couchbase/membership.go: the methods that watch the group. Documents are read and written by the
-- operations of couchbase/doc_op.go, whose answers are arguments here; times are nanoseconds.
use go_dcp.Prelude.{
  ℕ, suc, ◌+◌, Bool, true, false, not, Option, none, some, List, [], ◌∷◌, String, string_comparable,
  length, ltb, ◌==◌, if◌then◌else◌, ◌>>=◌,
}
use go_dcp.Membership.{Model, is_changed}

pub record Instance : Type 0 where
  pub id : String
  pub heartbeat_time : ℕ
  pub cluster_join_time : ℕ

pub record CbMembership : Type 0 where
  pub id : String
  pub info : Option Model
  pub cluster_join_time : ℕ
  pub last_active_instances : List Instance
  pub upper_wait_limit : ℕ
  pub heartbeat_running : Bool
  pub monitor_running : Bool

abbrev pub same_ids : List Instance → List Instance → Bool
same_ids [] current = true
same_ids (x ∷ xs) [] = true
same_ids (x ∷ xs) (y ∷ ys) =
    let rest = same_ids xs ys in if string_comparable.beq x.id y.id then rest else false

unfoldable pub is_cluster_changed : CbMembership → List Instance → Bool
is_cluster_changed h current_active_instances =
    if not (length h.last_active_instances == length current_active_instances)
    then true
    else not (same_ids h.last_active_instances current_active_instances)

-- `now - heartbeatTime < upperWaitLimit`, on numbers that may be negative in the source.
unfoldable pub is_alive : CbMembership → ℕ → ℕ → Bool
is_alive h now heartbeat_time = ltb now (h.upper_wait_limit + heartbeat_time)

-- selfOrder: the place of the first instance with the id, from 1, or 0.
unfoldable pub self_order : String → List Instance → ℕ
self_order id [] = 0
self_order id (instance_ ∷ rest) =
    let order = self_order id rest in
    if string_comparable.beq instance_.id id then 1 else if order == 0 then 0 else suc order

-- The models published on the bus; `none` is the panic of an instance that does not find itself.
unfoldable pub rebalance : CbMembership → List Instance → Option (CbMembership × List Model)
unfolding self_order is_changed
rebalance h instances =
    let order = self_order h.id instances in
    let new_info : Model = record { member_number = order; total_members = length instances } in
    let h' : CbMembership = record h { last_active_instances = instances } in
    if order == 0 then none else some (h', if is_changed new_info h.info then new_info ∷ [] else [])

-- A stable sort of the ids by their times of joining.
unfoldable pub place : String → ℕ → List (String × ℕ) → List (String × ℕ)
place id time [] = (id, time) ∷ []
place id time ((id', time') ∷ rest) =
    let later = place id time rest in
    if ltb time' time then (id', time') ∷ later else (id, time) ∷ (id', time') ∷ rest

unfoldable pub sort_ids : List (String × ℕ) → List (String × ℕ)
unfolding place
sort_ids [] = []
sort_ids ((id, time) ∷ rest) = place id time (sort_ids rest)

-- What reading the document of an instance answers.
pub data Fetched : Type 0 where
  fetched : ℕ → ℕ → Fetched
  not_available fetch_failed : Fetched

abbrev pub keep_alive : CbMembership → ℕ → String → Fetched → List Instance → Option (List Instance)
keep_alive h now id (fetched heartbeat_time cluster_join_time) rest =
    if is_alive h now heartbeat_time
    then some (
        record { id = id; heartbeat_time = heartbeat_time; cluster_join_time = cluster_join_time }
        ∷ rest)
    else some rest
keep_alive h now id not_available rest = some rest
keep_alive h now id fetch_failed rest = none

-- The instances that are alive, in the order of their times of joining.
unfoldable pub active_instances :
    CbMembership → ℕ → (String → Fetched) → List (String × ℕ) → Option (List Instance)
unfolding is_alive
active_instances h now fetch [] = some []
active_instances h now fetch ((id, time) ∷ ids) =
    active_instances h now fetch ids >>= λ rest. keep_alive h now id (fetch id) rest

-- What the update of the index answers.
pub data Updated : Type 0 where
  updated cas_mismatch update_failed : Updated

-- A round of monitor: what the index holds, or `none` where it cannot be read.
pub record Round : Type 0 where
  pub now : ℕ
  pub index : Option (List (String × ℕ))
  pub fetch : String → Fetched
  pub update : Updated

-- The index that holds the instances, whose ids differ.
unfoldable pub index_of : List Instance → List (String × ℕ)
index_of [] = []
index_of (instance_ ∷ rest) = (instance_.id, instance_.cluster_join_time) ∷ index_of rest

-- The index that updateIndex has written, and what becomes of the instance, or `none` for a panic.
abbrev pub Monitored : Type 0
Monitored = Option (List (String × ℕ)) × Option (CbMembership × List Model)

-- A mismatch runs monitor again, on the next round.
unfoldable pub monitor : CbMembership → List Round → Monitored
unfolding sort_ids active_instances is_cluster_changed rebalance index_of
monitor h [] = (none, some (h, []))
monitor h (round ∷ rounds) = let again = monitor h rounds in by_index again round.index
  where
    by_update : Monitored → List Instance → Updated → Monitored
    by_update again instances updated = (some (index_of instances), rebalance h instances)
    by_update again instances cas_mismatch = again
    by_update again instances update_failed = (none, some (h, []))

    by_instances : Monitored → Option (List Instance) → Monitored
    by_instances again none = (none, none)
    by_instances again (some instances) =
        if is_cluster_changed h instances
        then by_update again instances round.update
        else (none, some (h, []))

    by_index : Monitored → Option (List (String × ℕ)) → Monitored
    by_index again none = (none, some (h, []))
    by_index again (some all) =
        by_instances again (active_instances h round.now round.fetch (sort_ids all))

-- Close, without the bus.
unfoldable pub stop_running : CbMembership → CbMembership
stop_running h = record h { heartbeat_running = false; monitor_running = false }
