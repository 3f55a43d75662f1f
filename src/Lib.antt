-- ===== src/Lib.antt =====
-- Verification library of Propagul: shared state of agents by an observed-remove map, the gossip that
-- synchronises it, and the routing of requests over a fleet of model servers.
--
-- The parts and their files (paths from the repository's root):
--   python/propagul/crdt.py, class ORMap: Crdt/Defs.antt has the state as the record OrMap (node_id, seq,
--     entries, tombstones), set, delete, get and the eviction; Crdt/Merge.antt has merge and snapshot.
--     The proofs are in Crdt/Order (tags and max), Crdt/Tombstones and Crdt/Eviction, Crdt/Invariant,
--     Crdt/View (what a map holds with order and caps forgotten), Crdt/Writes, Crdt/Reads, Crdt/Restart.
--   python/propagul/gossip.py: Gossip/Digest, Gossip/Messages and Gossip/Handle, with the proofs in
--     Gossip/Receive, Gossip/Exact and Gossip/Deltas. The handler merges into the map of the node.
--   python/propagul/discovery.py and PeerAddress of python/propagul/types.py: Discovery.antt.
--   python/propagul/mesh/router.py: Router/Tracker, Router/EventLog, Router/Fleet and Router/Select, with
--     the proofs of the choice in Router/Choice and Router/Ordered.
--   python/propagul/mesh/config.py, class FleetConfigMap: Config/Defs.antt has the state with its file,
--     saving, loading and merging; Config/Tables.antt the four tables, read by the passes over prefixes
--     of Namespaces.antt. The proofs are in Config/Saving, Config/Restarts and Config/Reads.
--   python/propagul/a2a: A2a/State.antt has SharedAgentState (state.py, types.py), A2a/Room.antt AgentRoom
--     (room.py), with the proofs in A2a/Writes and A2a/Members.
--   python/propagul/store.py, class AgentStateStore: Store.antt, with the proofs in Store/Notices. It
--     hands messages to the gossip handler and says what is sent and which callbacks are called.
--   python/propagul/transport.py, class GossipTransport: Transport/Frames.antt has frames, their codes and the
--     loop that reads them, Transport/Pool.antt the pool and send. The proofs are in Transport/Delivery,
--     Transport/Sealed, Transport/Rounds, Transport/Sends, Transport/Bounded, Transport/Stopped
--     and Transport/Replaced.
--   python/propagul/mesh/agent.py, class MeshAgent: Agent/Settings (with Agent/Numbers) has
--     _apply_fleet_settings, Agent/Reconcile _reconcile_desired_models, Agent/Sync _sync_config, Agent/Loop
--     _poll_loop and _push_telemetry, Agent/Commands _fetch_and_execute_commands, Agent/Pull
--     _handle_pull_with_progress. The proofs are in Agent/Contexts, Agent/Settled, Agent/Exchange,
--     Agent/Unpushed, Agent/Polling, Agent/ReadOnly and Agent/Cancelling. The settings reach the proxy by
--     ProxySettings.
--   python/propagul/mesh/proxy.py: Proxy/Validation has _validate_backend_url, Proxy/Translate (with
--     Proxy/Values) and Proxy/Responses the translations, Proxy/Handlers the handlers of the backends and
--     Proxy/Chat _handle_chat_completions, which uses the fleet router of Router, Proxy/Endpoints the other
--     endpoints and _handle_connection. The proofs are in Proxy/Requested, Proxy/Answers, Proxy/Served,
--     Proxy/Balance, Proxy/Failover and Proxy/Stays.
--   Prelude.antt and its children: texts, integers, dicts, sets, sorting; Json.antt: dynamic values.
--
-- How the model corresponds to the code. A text is the list of its code points, a dict an association
-- list in insertion order, a set a list without repetitions; Python leaves the order of a set open, and
-- the theorems on merge hold for a remote snapshot in any order. Integers are unbounded, as in Python;
-- True and False count as 1 and 0 where the code asks for an int. The caps of crdt.py are an argument,
-- Caps, with the values of the file in crdt_caps. A method returns the new state, and its result beside
-- it; TypeError is a value of Result. A gossip message is its length and what json.loads makes of it,
-- and encoding stops before json.dumps; the bytes of a connection are a list of numbers. Locks make
-- each method one step, so that threads are sequences of calls. The clock and the success of a write of
-- the file are arguments of a call, and a file holds what json.load makes of it. The dashboard, the
-- model servers and the clients are arguments, too: what they answer, or that the call raises. All
-- recursion is on lists but for the loop of an inbound connection, Transport.Frames.read_frames, which
-- is given its rounds; one more than the bytes received is enough.
--
-- Not modelled: logging, sockets, TLS, threads, how a file is written, json's own syntax, floats beyond
-- m / 2^k (times are whole milliseconds, VRAM whole units); the integrations, and of python/propagul/mesh
-- the backends, gpu.py and cli.py, which are mostly input and output; of agent.py the readings of the
-- machine, the detection of backends and the rewriting of URLs, of proxy.py the parsing of requests
-- and the bytes of responses; parse_fleet_routing_table of mesh/router.py and
-- connect_to_cloud of store.py.
pub mod Prelude
pub mod Json
pub mod Crdt
pub mod Discovery
pub mod Gossip
pub mod Router
pub mod Namespaces
pub mod Config
pub mod A2a
pub mod Store
pub mod Transport
pub mod Agent
pub mod Proxy
pub mod Tests
