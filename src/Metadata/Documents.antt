-- ===== src/Metadata/Documents.antt =====
-- couchbase/doc_op.go, as far as couchbase/metadata.go calls it. The agent of gocbcore is a
-- parameter; the connector only ever passes the name of one attribute, so the path is left out.
use go_dcp.Prelude.{ℕ, ◌≡◌, ◌≢◌, Option, none, some, List}

-- A gocbcore.KeyValueError with StatusKeyNotFound, or any other error.
pub data KvError : Type 0 where
  key_not_found other_error : KvError

pub data Found : Type 0 where
  found : List ℕ → Found
  not_read : KvError → Found

-- `attribute` is the attribute that the cluster holds for a document. An operation that answers
-- without an error has taken place; after one that answers with an error we know nothing of that
-- document.
pub record Agent : Type 1 where
  pub State : Type 0
  pub set : State → List ℕ → List ℕ → Option KvError × State
  pub mutate_in : State → List ℕ → List ℕ → Option KvError × State
  pub lookup_in : State → List ℕ → Found
  pub delete : State → List ℕ → Option KvError × State
  pub attribute : State → List ℕ → Option (List ℕ)
  pub attribute-set :
      (s : State) (id j value : List ℕ) → id ≢ j → attribute (set s id value).1 j ≡ attribute s j
  pub attribute-mutate_in :
      (s : State) (id value : List ℕ)
      → (mutate_in s id value).0 ≡ none
      → attribute (mutate_in s id value).1 id ≡ some value
  pub attribute-mutate_in_other :
      (s : State) (id j value : List ℕ)
      → id ≢ j
      → attribute (mutate_in s id value).1 j ≡ attribute s j
  pub attribute-lookup_in :
      (s : State) (id value : List ℕ) → lookup_in s id ≡ found value → attribute s id ≡ some value
  pub attribute-lookup_in_none :
      (s : State) (id : List ℕ) → lookup_in s id ≡ not_read key_not_found → attribute s id ≡ none
  pub attribute-delete :
      (s : State) (id : List ℕ) → (delete s id).0 ≡ none → attribute (delete s id).1 id ≡ none
  pub attribute-delete_other :
      (s : State) (id j : List ℕ) → id ≢ j → attribute (delete s id).1 j ≡ attribute s j

module _ (agent : Agent) where
  -- The whole of each: the wait for the agent's answer is the answer.
  abbrev pub create_document : agent.State → List ℕ → List ℕ → Option KvError × agent.State
  create_document s id value = agent.set s id value

  abbrev pub upsert_xattrs : agent.State → List ℕ → List ℕ → Option KvError × agent.State
  upsert_xattrs s id value = agent.mutate_in s id value

  abbrev pub get_xattrs : agent.State → List ℕ → Found
  get_xattrs s id = agent.lookup_in s id

  abbrev pub delete_document : agent.State → List ℕ → Option KvError × agent.State
  delete_document s id = agent.delete s id
