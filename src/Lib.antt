-- ===== src/Lib.antt =====
-- A verification library for the Foundation Protocol runtime: the protocol objects, the stores, the
-- engines that keep sessions, activities and event streams, the registries of the graph, the
-- directory of server cards and the guards of calls. The code is Python under src/fp.
--
-- How the parts work together. The engines of src/fp/runtime keep their objects in stores, which
-- they know by the protocols of src/fp/stores/interfaces.py alone. A method of an engine reads an
-- object, checks its state, changes the copy that it was given and puts it back. The models say the
-- same: an engine takes a store as a record of operations and laws (Stores/Interfaces), and
-- Stores/Memory fills that record with the in-memory stores, whose laws are proved.
--
--   Prelude, Dict, TextSet   library names passed on; lists and texts over the native numbers;
--                            Python's dict as an association list in the order of insertion, and
--                            set as a list that is read by membership and size
--   Protocol/Errors          src/fp/protocol/errors.py: codes, results, methods that may raise
--   Protocol/Wire            FPError with its message and details, as it goes over a transport
--   Protocol/Json            JSON values of payloads; a number is kept as its text
--   Protocol/Models          src/fp/protocol/models.py: the dataclasses; `init_…` is the check of a
--                            class's __post_init__
--   Protocol/Normalize       src/fp/protocol/normalize.py: spellings of activity states
--   Stores/Kv, Grouped       src/fp/stores/base.py: InMemoryKVStore, InMemoryGroupedKVStore
--   Stores/Paging            the paging that both stores share, and a client that walks the pages
--   Stores/Interfaces        src/fp/stores/interfaces.py
--   Stores/Memory, Events    src/fp/stores/memory.py, InMemoryEventStore apart
--   Runtime/Sessions         src/fp/runtime/session_engine.py
--   Runtime/Activities       src/fp/runtime/activity_engine.py, its listings in Activities/Pages
--   Runtime/Revise           the pattern of the engines' methods: fetch, change, put
--   Runtime/Backpressure     src/fp/runtime/backpressure.py
--   Runtime/Streams          src/fp/runtime/event_engine.py, with its push configurations
--   Runtime/Idempotency      src/fp/runtime/idempotency.py
--   Runtime/Governance       src/fp/runtime/modules/governance_module.py
--   Runtime/Dispatch         src/fp/runtime/dispatch_engine.py
--   Runtime/Compaction       src/fp/runtime/context_compaction.py
--   Policy                   src/fp/policy
--   Observability            src/fp/observability: metrics and token counts
--   Economy                  src/fp/economy: metering, receipts, settlements, disputes
--   App                      src/fp/app/server.py and activity_orchestrator.py: State is FPServer
--                            with its helpers, Graph, Sessions, Activities, Events, Economy and
--                            Handshake its methods, Start and AsyncStart the orchestrators of
--                            a start, Calls one call of any method; Steps, Effects, Links and
--                            Reachable follow what the calls do to the stores, Decisions and Retry
--                            what a denial and a repeated start do
--   Graph                    src/fp/graph: entities, organizations, memberships, relations
--   Federation/Cards         FPServerCard of src/fp/federation/network.py, and
--                            src/fp/federation/card_signing.py
--   Federation/Directory     src/fp/federation/directory_service.py
--   Transport/Breaker        the circuit breaker of src/fp/transport/reliability.py
--   Transport/JsonRpc        src/fp/transport/http_jsonrpc.py: requests, the rewriting of their keys, and
--                            responses; InProcess is src/fp/transport/client_inproc.py
--   Tests                    sample objects, and the theorems applied to them
--
-- FPServer composes all of them. Its model is parametric in the stores too, and its methods are do
-- blocks that call the models of the registries, engines and services in the order of the code, so
-- a raise in the middle leaves behind what was written before it. The modules of src/fp/runtime/modules
-- only pass calls on and are left out.
--
-- A method of the code has the function of the same name; a body that works on one object is a
-- function of its own (`joined`, `left`, `updated`, `closed_with` for the session engine's join,
-- leave, update and close). A method that changes an object and may raise is a function to `Exec`:
-- it gives a result and the state after it, since what was written before a raise stays written.
-- Copies made by `deepcopy` are plain values.
--
-- Calls are sequential: a list of calls (`run_all`) is one call after the other. The locks of the code
-- span single calls of a store, of the idempotency guard, the backpressure controller, the relations
-- or the metrics, or a part of a method of the event engine or the directory; the session and activity
-- engines, the memberships, the orchestrators and the server hold none. Threads that call them at the
-- same time, as those of the ThreadingHTTPServer of src/fp/transport/http_publish.py may, can
-- interleave between a read and the write that follows it. That is not modelled, and no theorem speaks
-- of it. What is modelled is the await in an asynchronous start (App/AsyncStart): the start is two
-- calls, with any calls in between.
--
-- Choices of the models. Readings of the clock and fresh ids are arguments; a time is a number of
-- ticks, of microseconds in Federation. Amounts are whole numbers of the smallest unit. A limit, a
-- window or a time to live that is not above zero is zero. An error keeps its code and not its message
-- or details, but in Protocol/Wire. The lower case of an activity state is exact for characters whose
-- lower case is ASCII, and the states have no others; `str.lower` in the search of entities is a
-- parameter. The scheme that urlparse finds, the text that `str` gives for an item of an access list,
-- and the ed25519 check of a card are parameters, and so is what the server takes from Python's
-- library (App/State, Environment): uuid4 and utc_now by number, json.dumps, sha256, signatures, and
-- the policy engine as a function of its question and a fresh value. A handler of an operation is a
-- function of its context and input that returns, raises or gives an awaitable; one that calls the
-- server back before it does is not modelled. An enforcer of token budgets is a function of the number
-- of the question and its payload, so that it may have a state of its own; the number is an argument
-- of a start. A reading of the clock is taken in front of the engine's call that uses it.
--
-- Fuel. The paging loop of the filtered activity listing (`gather`) and the clients `walk` and
-- `drain` run on fuel, and the theorems about them give how much is enough: more than the number of
-- keys or events, since each round but the last takes at least one.
--
-- Not modelled: the SQLite and Redis stores with their codec, the input and output of HTTP and
-- sockets, the method table that from_server builds, the asynchronous engines, the
-- asynchronous server but for its starts, the clients other than the one in process, ed25519 and key
-- handling beyond the receipts, envelopes, dispatch by reflection, costs in floating point, and the
-- JSON of audit exports.
pub mod Prelude
pub mod Dict
pub mod TextSet
pub mod Protocol
pub mod Stores
pub mod Graph
pub mod Runtime
pub mod Transport
pub mod Policy
pub mod Observability
pub mod Economy
pub mod App
pub mod Federation
pub mod Tests
