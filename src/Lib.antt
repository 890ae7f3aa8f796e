-- ===== src/Lib.antt =====
-- Verification of the self-hosted deployer: a control plane that deploys applications to a Kubernetes
-- cluster through a durable journal of requests.
--
-- The parts and their files, with the paths of the code from the repository's root:
--
-- Common: what all parts share: lists as rows of a table, texts, results, tests on numbers.
--
-- AppConfig (internal/appconfig): the desired state of an application. Types holds the structure,
-- Normalize is `Config.Normalize` and `DatabaseConfig.normalize`, Validate is `Config.Validate` with a
-- child for each of its helpers, Paths holds the mount paths, Parse is `Parse` and `FromJSON`. A Go map
-- is an association list in the order of its iteration, and an error is a constructor without a text.
-- The decoders, the quantities and the name checks of Kubernetes and the parser of networks are
-- parameters (Codec, Externals).
--
-- Journal (internal/db): the tables of a tracked deployment. Types holds the rows (internal/domain),
-- Transaction the statements and the transactions: an action works on a copy of the tables, an error
-- rolls it back and a commit puts it in place, so that a call is one step. Requests is
-- deployment_request_repository.go, Checkpoints runtime_checkpoint_repository.go, Bindings
-- candidate_binding_repository.go and Finalize candidate_finalization_repository.go, where `f_tx` is
-- the body of `f`. Failures of the database itself and of the stored texts of times are not modelled; a
-- time is a number, and 0 is Go's zero time. Step is the state machine of the calls, and Laws holds the
-- proofs. JSON and the digest of a route's identity are parameters (Env).
--
-- Operation (internal/server): runs that list the calls that they make, while the runtime and the
-- repositories answer as parameters (World, RecoveryWorld, CapacityWorld). Advance is
-- candidate_operation.go, Recovery candidate_recovery.go and Capacity candidate_capacity.go. A call
-- is listed as it is made, whatever answers it; what must have answered stands in the steps between the
-- phases (Phases, Recovering). The ports of a Service have the fields of corev1.ServicePort.
--
-- Mutation (internal/server/app_mutation.go): the locks on applications, with the map, the locks behind
-- its pointers and the channel of each as the state, and callers that interleave in any order. A caller
-- whose context has ended before `acquire` stays outside.
--
-- Events (internal/db/event_repository.go, internal/server/event.go): the table of events, Record, the
-- filter of a request and the pages of a watch. SQLite's order of texts is a parameter (Collation). A
-- call of `sendNew` has one page more than there are rows as its fuel.
--
-- Cluster (internal/ingress): Storage is retained_storage.go, Nodes and Removal are nodes.go. The
-- clients of the Kubernetes API answer as parameters (Api), and a run lists the calls that change the
-- cluster.
--
-- Gate (internal/ingress/activation.go, internal/ingress/ownership.go): the gate of an application. A
-- change reads the Service in one state of the API server and writes it in another. The server is a
-- parameter with its documented concurrency control as laws (ServiceServer).
--
-- Auth: tokens (internal/security/tokens.go), the authenticator (internal/server/auth.go), and join
-- tokens (internal/db/join_token_repository.go), whose consumers read and write in separate statements.
-- Hashes are parameters (Hashing), and so are the answers of the token tables (TokenStore).
--
-- WireGuard (internal/wireguard/wireguard.go): the choice of an address for a peer. The two loops run
-- for as many rounds as their bounds leave, so that they end without being cut off. The parsers of
-- addresses are parameters (Netip). Hosts compares the bounds of the search with the hosts of a
-- subnet by division.
--
-- Agent (cmd/deployer-agent): backoff.go has the delays between retries, in numbers of 64 bits, and
-- run_loop.go the loop of heartbeats, over as many of them as the world has answered.
--
-- Database (internal/server/app.go): the status of a managed PostgreSQL cluster, with a warning as a
-- constructor that holds what its text prints. Folded comparison and quantities are parameters (Texts).
--
-- Examples: the theorems at concrete inputs.
--
-- Not modelled: the other handlers of the gRPC services and the objects that they build for Kubernetes,
-- the submission, withdrawal and completion of candidates, the query `GenerationsByApp` of the bindings,
-- the labels and the placement of nodes, backups, the command line, generated code.
pub mod Common
pub mod AppConfig
pub mod Journal
pub mod Agent
pub mod WireGuard
pub mod Auth
pub mod Operation
pub mod Database
pub mod Mutation
pub mod Events
pub mod Cluster
pub mod Gate
pub mod Examples
