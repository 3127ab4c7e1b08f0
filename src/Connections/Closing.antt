-- ===== src/Connections/Closing.antt =====
-- That a client closes the agents that it has made, each once: couchbase/client.go.
use go_dcp.Prelude.{
  ℕ, ◌+◌, ◌≡◌, refl, subst, inl, inr, Bool, true, false, Bool-cases, Option, none, some, List, [],
  ◌∷◌, ◌++◌, String, string_comparable, ℤ, arith, ◌==◌, ◌>>=◌,
}
use go_dcp.Helpers.DataUnits.{Floats, resolve_union_int_or_string_value}
use go_dcp.Config.Types.{Dcp}
use go_dcp.Config.Views.{CouchbaseMetadata, uint64}
use go_dcp.Connections.{
  AgentConfig, Agent, Connected, connected, failed, close, create_agent, with_new,
  create_metadata_agent, with_metadata, connect_with, connect, get_metadata, own_agent, other_agent,
  is_dcp_and_metadata_same_host,
}

abbrev pub reverse : List Agent → List Agent
reverse [] = []
reverse (a ∷ rest) = reverse rest ++ (a ∷ [])

-- Each agent has its own address.
abbrev pub HasAddresses : ℕ → List Agent → Type 0
HasAddresses n [] = Unit
HasAddresses n (a ∷ rest) = (a.address ≡ n) × HasAddresses (n + 1) rest

abbrev pub ClosesAll : Connected → Type 0
ClosesAll (connected c opened) = (close c ≡ some (reverse opened)) × HasAddresses 0 opened
ClosesAll (failed opened) = Unit

with_new-ClosesAll :
    (dial : AgentConfig → Bool) (agent : Agent) (other : AgentConfig)
    → agent.address ≡ 0
    → ClosesAll (
        with_new dial
          (record { agent = some agent; meta_agent = none })
          (agent ∷ [])
          (create_agent dial (agent ∷ []) other))
unfolding close
with_new-ClosesAll dial agent other first = elim (Bool-cases (dial other)) [
  | inl answers ↦
      let differs : (1 == agent.address) ≡ false = ground arith in
      rw (answers, differs) (refl, (first, (refl, tt)))
  | inr fails ↦ rw fails tt
]

create_metadata_agent-ClosesAll :
    (dial : AgentConfig → Bool) (config : Dcp) (metadata : CouchbaseMetadata) (agent : Agent)
    → agent.address ≡ 0
    → ClosesAll (create_metadata_agent dial config metadata agent)
unfolding create_metadata_agent close
create_metadata_agent-ClosesAll dial config metadata agent first =
    elim (Bool-cases (is_dcp_and_metadata_same_host config metadata)) [
      | inr apart ↦ rw apart (with_new-ClosesAll dial agent (other_agent metadata) first)
      | inl together ↦
          elim (Bool-cases (string_comparable.beq metadata.bucket config.bucket_name)) [
            | inl shared ↦
                let self : (agent.address == agent.address) ≡ true = ground arith in
                rw (together, shared, self) (refl, (first, tt))
            | inr other ↦
                rw (together, other)
                  (with_new-ClosesAll dial agent
                    (own_agent config metadata.bucket metadata.max_queue_size
                      metadata.connection_buffer_size metadata.connection_timeout)
                    first)
          ]
    ]

abbrev IsFirst : Option Agent → Type 0
IsFirst none = Unit
IsFirst (some a) = a.address ≡ 0

create_agent-IsFirst :
    (dial : AgentConfig → Bool) (c : AgentConfig) → IsFirst (create_agent dial [] c)
create_agent-IsFirst dial c = elim (Bool-cases (dial c)) [
  | inl answers ↦ rw answers refl
  | inr fails ↦ rw fails tt
]

with_metadata-ClosesAll :
    (dial : AgentConfig → Bool) (config : Dcp) (metadata : Option CouchbaseMetadata)
    → (agent : Option Agent) → IsFirst agent
    → ClosesAll (with_metadata dial config metadata agent)
unfolding close
with_metadata-ClosesAll dial config metadata none first = tt
with_metadata-ClosesAll dial config none (some agent) first = (refl, (first, tt))
with_metadata-ClosesAll dial config (some metadata) (some agent) first =
    create_metadata_agent-ClosesAll dial config metadata agent first

connect_with-ClosesAll :
    (dial : AgentConfig → Bool) (config : Dcp) (metadata : Option CouchbaseMetadata) (buffer : ℕ)
    → ClosesAll (connect_with dial config metadata buffer)
connect_with-ClosesAll dial config metadata buffer =
    with_metadata-ClosesAll dial config metadata _ (create_agent-IsFirst dial _)

abbrev WhenReturned : Option Connected → Type 0
WhenReturned none = Unit
WhenReturned (some r) = ClosesAll r

-- When Connect returns a client, whatever agents could be made, Close closes the agents that Connect
-- has made, each of them once and the last one first; they are different agents.
pub connect-ClosesAll :
    (dial : AgentConfig → Bool) (parse_duration : String → Option ℤ) (f : Floats) (config : Dcp)
    → (r : Connected) → connect dial parse_duration f config ≡ some r
    → ClosesAll r
unfolding connect
connect-ClosesAll dial parse_duration f config r e = subst WhenReturned e (
    by_answers (resolve_union_int_or_string_value f config.connection_buffer_size)
      (get_metadata parse_duration f config))
  where
    by_answers :
        (size : Option ℤ) (found : Option (Option CouchbaseMetadata))
        → WhenReturned (
            size >>= λ buffer.
            (found >>= λ metadata. some (connect_with dial config metadata (uint64 buffer))))
    by_answers none found = tt
    by_answers (some buffer) none = tt
    by_answers (some buffer) (some metadata) =
        connect_with-ClosesAll dial config metadata (uint64 buffer)
