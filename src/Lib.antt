-- ===== src/Lib.antt =====
-- go-dcp: a client that streams the changes of a Couchbase bucket (DCP) to a listener, shares the
-- vBuckets of the bucket among the members of a group, and keeps checkpoints of how far each vBucket
-- has been handled.
--
-- How the parts interact. A membership (membership/) says which member of how many this process is;
-- the discovery of vBuckets (stream/vbucket_discovery.go) takes its chunk of all vBuckets. The stream
-- (stream/stream.go) has one observer (couchbase/observer.go) for each vBucket, which gets the
-- events from gocbcore, holds them back until they are persisted (rollback mitigation) and drops
-- those below a catch-up point after a rollback. The stream hands each event to the consumer, and
-- an acknowledgement moves the offset of the vBucket and marks it dirty. The checkpoint
-- (stream/checkpoint.go) saves the dirty offsets to a store of documents (metadata/, and
-- couchbase/metadata.go), and loads them when a stream opens.
--
-- Which file models which part:
--   Wrapper.antt     wrapper/concurrent_swiss_map.go. The table underneath is a library, so it is an
--                    interface with laws (CsMap), which Wrapper/Assoc.antt shows can be met.
--                    Wrapper/Json.antt has MarshalJSON and UnmarshalJSON, over an encoder of maps.
--   Helpers.antt     helpers/utils.go and helpers/constants.go: ChunkSlice, ChunkSliceWithSize,
--                    IsMetadata, Retry. Slices and indices that panic are Options. Helpers/DataUnits.antt
--                    has helpers/data_units.go; floats are a parameter, exact on whole numbers up to
--                    2 ^ 53.
--   Models.antt      models/type.go: offsets, snapshots, events, checkpoint documents.
--   Membership.antt  membership/: Model, the membership that hears of changes on the bus, and the static
--                    one.
--   Discovery.antt   stream/vbucket_discovery.go: Get, and which membership is made.
--   Observer.antt    couchbase/observer.go: Observer/Defs.antt has the state and its methods,
--                    Observer/Handlers.antt the handlers that gocbcore calls. A handler returns the
--                    observer, and the events that its listener was called with; it may also still
--                    be waiting, or panic because the event is outside of the snapshot. What other
--                    goroutines do to the observer during a wait is an explicit list of pokes.
--   Stream.antt      stream/stream.go: Stream/State.antt has setOffset, waitAndForward, listen, the
--                    Ack of a listener's context, GetOffsets and UnmarkDirtyOffsets. The calls on
--                    the consumer are results. Runs are lists of steps, an event or an
--                    acknowledgement each, in any order.
--   Metadata.antt    metadata/metadata.go as an interface, metadata/read_metadata.go,
--                    metadata/file_metadata.go, and couchbase/metadata.go over couchbase/doc_op.go; the
--                    agent of gocbcore and the encoding of sonic are parameters with laws.
--                    Metadata/Contract.antt is what a store of checkpoints promises.
--   Checkpoint.antt  stream/checkpoint.go and stream/offset/offset_latest_seqno_init.go: Save, Load,
--                    Clear and the schedule's flag. What happens to the stream while a save writes
--                    its documents is an argument of the save.
--   Lifecycle.antt   stream/stream.go: Open, listenEnd, reopenStream, Rebalance, rebalance, Close, wait
--                    and dispatchPersistSeqNo. Timers and channels are fields of the stream,
--                    and so is whether rollback mitigation observes. OpenStream of the client says what
--                    becomes of an observer. The order in which streams open is an argument, and so is
--                    what events do between two of them.
--   Mitigation.antt  couchbase/rollback_mitigation.go: the persisted numbers of the replicas, the
--                    configurations, and what observers are told.
--   Version.antt     couchbase/version.go: the order of versions, and how they are read.
--   CbMembership.antt  couchbase/membership.go: how an instance registers, which instances of a group
--                    are alive, and their numbers. The answers of the cluster are arguments.
--   HealthCheck.antt couchbase/healthcheck.go: the pings of one tick, Start and Stop.
--   Rollback.antt    couchbase/client.go: OpenStream and openStreamWithRollback, and the merge of the
--                    callback of GetVBucketSeqNos, one entry after another. The agent's answers are
--                    a function of the requests.
--   ServiceDiscovery.antt  servicediscovery/, stream/leader_election.go and the callbacks of
--                    kubernetes/leader_elector.go: who leads, and the numbers that a leader gives out,
--                    and the label of its pod.
--                    The rounds of the loops are single steps; what the network answers is an argument,
--                    and so is what other goroutines do while a round waits for it.
--   Config.antt      config/dcp.go: Config/Types.antt has the records, Config/Defaults.antt ApplyDefaults
--                    and its steps, Config/Views.antt what is read from the maps of the configuration.
--                    The environment is a function; reading a duration and the levels of logrus
--                    (logger/logger.go) are parameters.
--   Kubernetes.antt  kubernetes/stateful_set_membership.go, Kubernetes/Ha.antt kubernetes/ha_membership.go,
--                    and Kubernetes/Client.antt the namespace and the address of the pod of
--                    kubernetes/client.go.
--   Connections.antt couchbase/client.go: the agents that Connect makes and Close closes, where whether
--                    an agent can be made is a parameter. Connections/Requests.antt has Ping
--                    and GetCollectionIDs over the answers of gocbcore, and Wait of
--                    couchbase/async_op.go, and Connections/Queues.antt GetAgentQueues.
--   Api.antt         api/api.go: the handlers of the routes, and which routes there are.
--   Program.antt     dcp.go: Program/Creation.antt has newDcp, with the version and the bucket that
--                    couchbase/http_client.go answers with, Program/Defs.antt Start and close over the
--                    stream and the checkpoint above, and Program/ConfigFile.antt newDcpConfig, where
--                    the parser of YAML is a parameter.
--   Metrics.antt     metric/: Metrics/Descs.antt has the descriptions of NewMetricCollector, over Prometheus
--                    as a parameter, Metrics/Defs.antt Collect, and Metrics/Registerer.antt the registerer.
--   Strconv.antt     the functions of Go's strconv and strings that the parts above call.
--   Prelude.antt     shared names and lemmas; Examples.antt runs at concrete inputs.
--
-- Numbers. What is an int or a duration in the configuration is an integer, and so are the parts
-- of a version; Atoi refuses what does not fit in 64 bits. Sequence numbers, UUIDs and ids are
-- natural numbers; the code only compares and stores them. Texts that are taken apart are lists
-- of bytes, and spaces and letters are those of ASCII. Numbers of vBuckets are cut to 16 bits
-- where the code casts them; the count of active streams is the bit pattern of an int32, and the
-- count of observed replicas a uint32.
--
-- Fuel. digits_before of Strconv.antt (strconv.Itoa) gets more fuel than the number, which has
-- fewer digits than that; sized_loop of Helpers.antt gets one round more than the slice has items,
-- and each round takes at least one. Both are shown to be enough.
--
-- Not modelled: latencies, logging, tracing (tracing/tracing.go), which are outputs only; the requests
-- of GetVBucketSeqNos, whose callbacks read and write one map from several goroutines; what Start
-- and close do with the API, the election, the health check and the bus; the JSON of identities
-- (models/identity.go) and of the printed configuration; the calls of gocbcore, Kubernetes, RPC and
-- HTTP libraries, with their deadlines. The goroutines of one save or load, and those that open
-- streams, are run one after another, in an order that is not fixed.
mod Prelude
mod Examples
pub mod Api
pub mod Wrapper
pub mod Helpers
pub mod Models
pub mod Membership
pub mod Discovery
pub mod Observer
pub mod Stream
pub mod Metadata
pub mod Checkpoint
pub mod Mitigation
pub mod Version
pub mod Lifecycle
pub mod CbMembership
pub mod Connections
pub mod Config
pub mod HealthCheck
pub mod Kubernetes
pub mod Program
pub mod Metrics
pub mod Rollback
pub mod ServiceDiscovery
pub mod Strconv
