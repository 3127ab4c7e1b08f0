-- ===== src/Examples/Elections.antt =====
-- A member that is elected, is joined by two followers, and gives out numbers.
use go_dcp.Prelude.{
  ℕ, true, ◌↔◌, ◌≡◌, refl, Option, none, some, List, ◌∷◌, String, string_comparable, map, arith,
}
use go_dcp.Wrapper.{CsMap, load}
use go_dcp.Wrapper.Assoc.{assoc}
use go_dcp.Membership.{Model}
use go_dcp.ServiceDiscovery.{
  Identity, Network, Service, ServiceDiscovery, new_service_discovery, handle_register, get_all,
  monitor, on_become_leader, call_rebalance, Member, on_started_leading, on_stopped_leading,
}
use go_dcp.ServiceDiscovery.Roles.{IsConsistent}
use go_dcp.ServiceDiscovery.Runs.{Run, leads, registers, Run-IsConsistent}
use go_dcp.ServiceDiscovery.Labels.{here, starts, stops, Elections-IsLabelled}
use go_dcp.ServiceDiscovery.Owners.{IsAnswered, HasOneOwner}
use go_dcp.ServiceDiscovery.Order.{find, HasDistinctNames, IsSorted, get_all_lem}
use go_dcp.ServiceDiscovery.Numbers.{monitor_streams_once}
use go_dcp.Examples.Members.{ten_buckets}

instance abbrev text_table : CsMap String
text_table = assoc

-- A network in which everything is answered.
abbrev net_up : Network
net_up = record {
  dial = λ ip i. none;
  ping = λ name i. none;
  register = λ name i. none;
  rebalance = λ name i. none;
}

abbrev pod : String → ℕ → Identity
pod name time = record { ip = name; name = name; cluster_join_time = time }

abbrev with_two : ServiceDiscovery
with_two =
    handle_register net_up 2 (pod "a" 1)
      (handle_register net_up 1 (pod "a" 1) (on_become_leader new_service_discovery) (pod "c" 9))
      (pod "b" 5)

with_two-Run : Run new_service_discovery with_two
with_two-Run =
    registers net_up 2 (pod "a" 1) (pod "b" 5)
      (registers net_up 1 (pod "a" 1) (pod "c" 9) (leads Run.here))

Run-IsConsistent_example : IsConsistent with_two
Run-IsConsistent_example = Run-IsConsistent with_two-Run

all_answer : (o : Option Service) → IsAnswered net_up o
unfolding call_rebalance
all_answer none = tt
all_answer (some service) = refl

monitor_streams_once_example :
    (leader : Model) × ((monitor (λ r. r) net_up with_two).0.info ≡ some leader)
    × (map (λ t. t.0) (monitor (λ r. r) net_up with_two).2 ≡ get_all with_two)
    × HasOneOwner ten_buckets 7 (leader ∷ map (λ t. t.1) (monitor (λ r. r) net_up with_two).2)
unfolding on_become_leader handle_register get_all new_service_discovery go_dcp.Wrapper.create
    go_dcp.Wrapper.store go_dcp.Wrapper.range go_dcp.Wrapper.visit
monitor_streams_once_example =
    monitor_streams_once net_up with_two ten_buckets 7 (Run-IsConsistent with_two-Run) refl
      (λ n. all_answer (load with_two.services n)) (omega arith) (omega arith) (omega arith)

abbrev unlabelled : Member
unlabelled = record { role = none; discovery = new_service_discovery }

abbrev leading : Member
leading = on_started_leading true unlabelled

Elections-IsLabelled_example :
    ((on_stopped_leading true leading).role ≡ some "leader")
    ↔ ((on_stopped_leading true leading).discovery.am_i_leader ≡ true)
Elections-IsLabelled_example = Elections-IsLabelled (stops (starts here))

get_all_lem_example :
    (l : List Service) × (get_all with_two ≡ map (λ service. service.name) l)
    × HasDistinctNames l
    × IsSorted l
    × ((n : String) → find n l ≡ load with_two.services n)
get_all_lem_example = get_all_lem with_two (Run-IsConsistent with_two-Run)
