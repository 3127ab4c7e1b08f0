-- ===== src/Connections.antt =====
-- couchbase/client.go: the agents that Connect makes and Close closes, pings, and the ids of
-- collections. The agents are gocbcore's: whether one can be made is a parameter, and each has an
-- address that tells it from the others. A panic is `none`.
pub mod Closing
pub mod Requests
pub mod Queues
use go_dcp.Prelude.{
  ℕ, Bool, true, false, ◌&&◌, not, Option, none, some, List, [], ◌∷◌, ◌++◌, String,
  string_comparable, nat_comparable, insert, length, map, codes, ℤ, ltb_ℤ, ltb, ◌==◌, if◌then◌else◌,
  ◌>>=◌,
}
use go_dcp.Helpers.DataUnits.{Floats, resolve_union_int_or_string_value}
use go_dcp.Config.Types.{Dcp}
use go_dcp.Config.Views.{CouchbaseMetadata, is_couchbase_metadata, get_couchbase_metadata, uint64}

-- What CreateAgent is called with.
pub record AgentConfig : Type 0 where
  pub hosts : List (List ℕ)
  pub bucket : String
  pub username : String
  pub password : String
  pub secure_connection : Bool
  pub root_ca_path : String
  pub max_queue_size : ℤ
  pub connection_buffer_size : ℕ
  pub connection_timeout : ℤ

pub record Agent : Type 0 where
  pub address : ℕ
  pub config : AgentConfig

pub record Client : Type 0 where
  pub agent : Option Agent
  pub meta_agent : Option Agent

-- What Connect comes to, with the agents that it has made, oldest first.
pub data Connected : Type 0 where
  connected : Client → List Agent → Connected
  failed : List Agent → Connected

-- The order of texts by their bytes, as sort.Strings has it.
unfoldable pub is_before : List ℕ → List ℕ → Bool
is_before s [] = false
is_before [] (d ∷ ds) = true
is_before (c ∷ cs) (d ∷ ds) =
    let rest = is_before cs ds in if ltb c d then true else if c == d then rest else false

unfoldable pub place : List ℕ → List (List ℕ) → List (List ℕ)
unfolding is_before
place s [] = s ∷ []
place s (t ∷ ts) = let later = place s ts in if is_before t s then t ∷ later else s ∷ t ∷ ts

unfoldable pub sort_strings : List (List ℕ) → List (List ℕ)
unfolding place
sort_strings [] = []
sort_strings (s ∷ ss) = place s (sort_strings ss)

-- strings.Join with a comma
unfoldable pub join : List (List ℕ) → List ℕ
join [] = []
join (s ∷ []) = s
join (s ∷ t ∷ ts) = s ++ (b',' ∷ join (t ∷ ts))

abbrev pub same_text : List ℕ → List ℕ → Bool
same_text [] [] = true
same_text [] (d ∷ ds) = false
same_text (c ∷ cs) [] = false
same_text (c ∷ cs) (d ∷ ds) = c == d && same_text cs ds

unfoldable pub is_dcp_and_metadata_same_host : Dcp → CouchbaseMetadata → Bool
unfolding sort_strings join
is_dcp_and_metadata_same_host config metadata =
    same_text (join (sort_strings (map codes config.hosts))) (join (sort_strings metadata.hosts))

abbrev pub is_shared : Dcp → CouchbaseMetadata → Bool
unfolding is_dcp_and_metadata_same_host
is_shared config metadata =
    string_comparable.beq metadata.bucket config.bucket_name
    && is_dcp_and_metadata_same_host config metadata

-- The size of the buffer and the timeout of the agent, which the metadata may use as well.
unfoldable pub sizes : Dcp → Option CouchbaseMetadata → ℕ → ℕ × ℤ
unfolding is_dcp_and_metadata_same_host
sizes config none buffer = (buffer, config.connection_timeout)
sizes config (some metadata) buffer =
    if is_shared config metadata
    then (
      if ltb buffer metadata.connection_buffer_size
          then metadata.connection_buffer_size
          else buffer,
      if ltb_ℤ config.connection_timeout metadata.connection_timeout
          then metadata.connection_timeout
          else config.connection_timeout,
    )
    else (buffer, config.connection_timeout)

-- client.connect: an agent with the hosts and the user of the configuration
abbrev pub own_agent : Dcp → String → ℤ → ℕ → ℤ → AgentConfig
own_agent config bucket max_queue_size buffer timeout = record {
  hosts = map codes config.hosts;
  bucket = bucket;
  username = config.username;
  password = config.password;
  secure_connection = config.secure_connection;
  root_ca_path = config.root_ca_path;
  max_queue_size = max_queue_size;
  connection_buffer_size = buffer;
  connection_timeout = timeout;
}

abbrev pub other_agent : CouchbaseMetadata → AgentConfig
other_agent metadata = record {
  hosts = metadata.hosts;
  bucket = metadata.bucket;
  username = metadata.username;
  password = metadata.password;
  secure_connection = metadata.secure_connection;
  root_ca_path = metadata.root_ca_path;
  max_queue_size = ℤ.pos 0;
  connection_buffer_size = metadata.connection_buffer_size;
  connection_timeout = metadata.connection_timeout;
}

-- Close closes the agent of the metadata, and the other one if that is another. `none` is the panic
-- on a client without an agent.
unfoldable pub close : Client → Option (List Agent)
close c = by_agents c.meta_agent c.agent
  where
    by_agents : Option Agent → Option Agent → Option (List Agent)
    by_agents none none = some []
    by_agents none (some a) = some (a ∷ [])
    by_agents (some m) none = none
    by_agents (some m) (some a) =
        if m.address == a.address then some (m ∷ []) else some (m ∷ a ∷ [])

-- The configuration of the metadata, where it is in Couchbase
unfoldable pub get_metadata : (String → Option ℤ) → Floats → Dcp → Option (Option CouchbaseMetadata)
unfolding is_couchbase_metadata get_couchbase_metadata
get_metadata parse_duration f config =
    if is_couchbase_metadata config
    then (get_couchbase_metadata parse_duration f config >>= λ metadata. some (some metadata))
    else some none

module _ (dial : AgentConfig → Bool) where
  -- CreateAgent, after the agents that are there.
  abbrev pub create_agent : List Agent → AgentConfig → Option Agent
  create_agent opened config =
      if dial config then some (record { address = length opened; config = config }) else none

  abbrev pub with_new : Client → List Agent → Option Agent → Connected
  with_new c opened none = failed opened
  with_new c opened (some a) = connected (record c { meta_agent = some a }) (opened ++ (a ∷ []))

  unfoldable pub create_metadata_agent : Dcp → CouchbaseMetadata → Agent → Connected
  create_metadata_agent config metadata agent =
      let c : Client = record { agent = some agent; meta_agent = none } in
      let opened = agent ∷ [] in
      if is_dcp_and_metadata_same_host config metadata
      then if string_comparable.beq metadata.bucket config.bucket_name
        then connected (record { agent = some agent; meta_agent = some agent }) opened
        else with_new c opened (
            create_agent opened (
              own_agent config metadata.bucket metadata.max_queue_size
                metadata.connection_buffer_size metadata.connection_timeout))
      else with_new c opened (create_agent opened (other_agent metadata))

  abbrev pub with_metadata : Dcp → Option CouchbaseMetadata → Option Agent → Connected
  with_metadata config metadata none = failed []
  with_metadata config none (some agent) =
      connected (record { agent = some agent; meta_agent = none }) (agent ∷ [])
  with_metadata config (some metadata) (some agent) = create_metadata_agent config metadata agent

  abbrev pub connect_with : Dcp → Option CouchbaseMetadata → ℕ → Connected
  connect_with config metadata buffer =
      let (size, timeout) = sizes config metadata buffer in
      with_metadata config metadata
        (create_agent [] (own_agent config config.bucket_name config.max_queue_size size timeout))

  unfoldable pub connect : (String → Option ℤ) → Floats → Dcp → Option Connected
  connect parse_duration f config =
      resolve_union_int_or_string_value f config.connection_buffer_size >>= λ buffer.
      (get_metadata parse_duration f config >>= λ metadata.
      some (connect_with config metadata (uint64 buffer)))
