-- ===== src/Lib.antt =====
-- PeerContext: a host shares a Project on the local network; members join by invitation, register
-- Agents, and ask the Agents of others. This library models the shared protocol, the host and its
-- clients, the local state of a machine, the daemon that ties them together and the isolated runs of
-- Codex, and proves what makes them correct.
--
-- The parts and where they stand:
--
-- - Common: helpers on lists, maps, texts and integers; Errors: Go's errors as values, with
--   errors.Is, and the sentinel errors of pkg/protocol/v2/errors.go and internal/lanhost.
-- - Failure: internal/failure/error.go, the structured errors of the control socket.
-- - Protocol: pkg/protocol/v2. Model is model.go, Signing is signing.go, Invitation is
--   invitation.go, Time is what they use of Go's package time, and Platform holds hashes,
--   signatures, base64, hex and the layout of times as parameters.
-- - Lanhost: internal/lanhost. Sql is what store.go uses of database/sql: a call takes the tables
--   and a list of coming faults, and each statement, begin and commit fails where the list says so.
--   Store is store.go, with the tables of its schema as lists of rows and one function per method.
--   Operations gathers the methods that write as one type of calls.
--   Replay and Remote are auth.go, Broker is broker.go, Wire is wire.go, and Server is server.go:
--   one module per handler, each a function from the host's state to an answer and a new state.
--   Server/Permitted is what a message lets its sender do. Client is the RPC of client.go with its
--   retries, over the answers of an HTTP client; Client/Requests is the whole of a call,
--   Client/Joining is Join, and Client/Providing is the loop of RunProvider over the frames that
--   the host sends.
-- - State: internal/v2state/state.go. Disk is Load and Save over a machine whose system calls may
--   fail, Keys the private keys, Profiles and Agents the operations on the state.
-- - Service: internal/service. Daemon is the state of Daemon and what a command does to it, Projects,
--   Agents and Asking are the larger commands, Requests is dispatchControl and handleControl,
--   Providers is the provider loops as a step relation, Startup and Endpoints are what Run does
--   first, and Control is control.go and what Do of client.go makes of a reply.
-- - Cli: runAsk of internal/cli/v2_commands.go, its presentation of errors, and the exit codes of
--   pkg/clioutput/output.go.
-- - Discovery: internal/discovery/mdns.go, Discover over the events that its select takes.
-- - Codex: internal/codex/isolated.go, the environment of an isolated run and the reading of its
--   output.
-- - Examples: a platform that computes, and runs of the program on it.
--
-- How the code corresponds. A Go function is a function of the same name in the antt spelling
-- (replayGuard.Accept is accept, ConsumeInvitation is consume_invitation). Methods that hold a lock
-- are single steps. dispatch of broker.go lets go of its lock while it waits: it is start_dispatch,
-- any change by other handlers (Wait.others in Server/Ask), and finish_dispatch. A channel of
-- capacity one is an entry of Broker.channels. A request handler reads the clock, the nonces and
-- the keys from World. The provider loop of handleProvider is run_provider, over the list of what
-- is read from the connection.
--
-- Numbers and bounds. A time counts nanoseconds from before the year 0000 and has no upper end, so
-- t.Add of a negative duration stops at that time's zero. Time.Sub saturates at the largest
-- int64, as Go's does. The product of the lifetime of an invitation and the timeout of a request wrap
-- around at 2^64. Loops are structural recursions, but for the wait of registerAgent, which has 121
-- rounds of fuel: it ends three seconds after the registration, and a round is 25 milliseconds.
--
-- Parameters. Platform and Codec are records of functions: cryptography, encodings and JSON. A
-- theorem that needs more of them than their types has it as a hypothesis. Texts are lists of code
-- points, which are the bytes of an ASCII text. A row of a query is decoded as the code does, with
-- errors of base64 and of times dropped where the code drops them.
--
-- The daemon. A command runs to its end, except that each call of RPC has a field `meanwhile`: what
-- other commands, providers and the host server of the same daemon do while it waits. Cancel
-- functions are numbers of contexts. A round of a provider loop is a step that reports its state, its
-- wait or its end; what the round says to the host is Client/Providing.
--
-- Not modelled: the other commands of the command line (internal/cli, cmd), launchd.go, the
-- probe of Codex in compatibility.go, ValidateIsolationPolicy, the embedded skill bundle, the
-- version and the spikes, all of which are mostly input and output; the servers, mDNS and shutdown
-- in Run; a crash of the machine in the middle of a call; the permissions of files; and the indexes
-- of the database.
mod Common
pub mod Errors
pub mod Failure
pub mod Protocol
pub mod Lanhost
pub mod State
pub mod Service
pub mod Discovery
pub mod Cli
pub mod Codex
pub mod Examples
