-- ===== src/Connections/Queues.antt =====
-- couchbase/client.go: GetAgentQueues, over what it reads of the agents of gocbcore by reflection.
use go_dcp.Prelude.{
  ℕ, ◌≡◌, ◌≢◌, refl, Bool, true, false, Option, none, some, List, [], ◌∷◌, ◌++◌, ℤ, arith, ◌==◌,
  ==_iff,
}
use go_dcp.Models.{AgentQueue}

pub record Pipeline : Type 0 where
  pub address : List ℕ
  pub queued : ℤ
  pub max_items : ℤ

-- `object` stands for the pointer to the snapshot.
pub record QueueSnapshot : Type 0 where
  pub object : ℕ
  pub pipelines : List Pipeline

abbrev pub queues_of : Bool → List Pipeline → List AgentQueue
queues_of is_dcp [] = []
queues_of is_dcp (pipeline ∷ pipelines) =
    record {
      address = pipeline.address;
      is_dcp = is_dcp;
      current = pipeline.queued;
      max = pipeline.max_items;
    }
    ∷ queues_of is_dcp pipelines

abbrev pub is_of : Option QueueSnapshot → QueueSnapshot → Bool
is_of none snapshot = false
is_of (some dcp) snapshot = snapshot.object == dcp.object

abbrev pub each_snapshot : Option QueueSnapshot → List QueueSnapshot → List AgentQueue
each_snapshot dcp [] = []
each_snapshot dcp (snapshot ∷ snapshots) =
    queues_of (is_of dcp snapshot) snapshot.pipelines ++ each_snapshot dcp snapshots

abbrev pub with_known : Option QueueSnapshot → List QueueSnapshot → List QueueSnapshot
with_known none snapshots = snapshots
with_known (some snapshot) snapshots = snapshot ∷ snapshots

-- The snapshots of the two agents; `none` is an error.
unfoldable pub get_agent_queues : Option QueueSnapshot → Option QueueSnapshot → List AgentQueue
get_agent_queues agent dcp = each_snapshot dcp (with_known agent (with_known dcp []))

-- The snapshots of the two agents are different objects. Then the queues of the agent come first, and
-- only those of the DCP agent are marked as such.
get_agent_queues_lem :
    (agent dcp : QueueSnapshot)
    → agent.object ≢ dcp.object
    → get_agent_queues (some agent) (some dcp)
      ≡ queues_of false agent.pipelines ++ (queues_of true dcp.pipelines ++ [])
unfolding get_agent_queues
get_agent_queues_lem agent dcp differ =
    let other : (agent.object == dcp.object) ≡ false = ground arith in
    let same : (dcp.object == dcp.object) ≡ true = (==_iff dcp.object dcp.object).1 refl in
    rw (other, same) refl
