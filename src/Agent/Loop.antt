-- ===== src/Agent/Loop.antt =====
-- python/propagul/mesh/agent.py: `_poll_loop` and `_push_telemetry`. Both steps of a poll run in a
-- worker thread, by `asyncio.to_thread`. `asyncio.create_task` raises where no event loop runs in its
-- thread: which threads have one is an argument. What the dashboard answers to a heartbeat changes the
-- routing table only, and is left out.
use propagul.Prelude.{ℕ, ◌+◌, Bool, true, false, ◌&&◌, not, Option, List, [], ◌∷◌, if◌then◌else◌}
use propagul.Crdt.Defs.{Caps}
use propagul.Config.Defs.{FleetConfigMap}
use propagul.Router.EventLog.{RoutingEvent, RoutingEventLog, drain}
use propagul.Agent.Numbers.{Decimal}
use propagul.Agent.Settings.{ProxySettings, apply_fleet_settings}
use propagul.Agent.Reconcile.{Stats}
use propagul.Agent.Sync.{Dashboard, SyncCalls, sync_config}

pub data Thread : Type 0 where
  event_loop : Thread
  worker : Thread

-- the state that a poll changes; `reconciles` are the tasks that `create_task` has started
pub record Node : Type 0 where
  pub config : FleetConfigMap
  pub proxy : Option ProxySettings
  pub stats : Stats
  pub routing_log : RoutingEventLog
  pub has_key : Bool
  pub auto_pull : Bool
  pub pull_in_progress : Bool
  pub reconciles : ℕ

-- One poll: whether the telemetry is collected, the URLs of its backends are rewritten and the requests
-- to the dashboard are built, or raise; and the exchange with the dashboard. `Request` raises for a URL
-- without a scheme. The URLs of a poll all start with the dashboard's, so that the requests of
-- `_sync_config` are built where the one of the heartbeat is.
pub record Poll : Type 0 where
  pub collects : Bool
  pub rewrites : Bool
  pub requests : Bool
  pub calls : SyncCalls
  pub dashboard : Dashboard

-- the routing events of the heartbeat, and the log without them
unfoldable pub heartbeat : Node → List RoutingEvent × Node
heartbeat node =
    let (events, log) = drain node.routing_log in (events, record node { routing_log = log })

unfoldable pub sync_node : Caps → Poll → Node → Node
sync_node caps poll node =
    let (config', stats') =
      sync_config caps poll.calls node.has_key poll.dashboard (node.config, node.stats) in
    record node { config = config'; stats = stats' }

abbrev pub apply_settings : Decimal → Node → Node
apply_settings decimal node = record node {
  proxy = apply_fleet_settings decimal node.config node.proxy;
}

-- `create_task`, and whether it raises
unfoldable pub create_reconcile : (Thread → Bool) → Thread → Node → Node × Bool
create_reconcile has_loop thread node =
    if has_loop thread
    then (record node { reconciles = node.reconciles + 1 }, false)
    else (node, true)

-- `_push_telemetry`, and whether it raises
unfoldable pub push_telemetry :
    Decimal → Caps → (Thread → Bool) → Thread → Poll → Node → Node × Bool
push_telemetry decimal caps has_loop thread poll node =
    let drained = (heartbeat node).1 in
    let synced = apply_settings decimal (sync_node caps poll drained) in
    if not poll.rewrites
    then (node, true)
    else if not poll.requests
    then (drained, true)
    else if synced.auto_pull && not synced.pull_in_progress
    then create_reconcile has_loop thread synced
    else (synced, false)

abbrev pub count_error : Node → Node
count_error node = record node { stats = record node.stats { errors = node.stats.errors + 1 } }

abbrev pub count_push : Node → Node
count_push node = record node { stats = record node.stats { pushes = node.stats.pushes + 1 } }

abbrev pub count_poll : Node → Node
count_poll node = record node { stats = record node.stats { polls = node.stats.polls + 1 } }

abbrev pub after_push : Node × Bool → Node
after_push (node, raised) = if raised then count_error node else count_push node

-- the body of the loop
unfoldable pub poll_once : Decimal → Caps → (Thread → Bool) → Poll → Node → Node
poll_once decimal caps has_loop poll node =
    if not poll.collects
    then count_error node
    else if node.has_key
    then after_push (push_telemetry decimal caps has_loop worker poll (count_poll node))
    else count_poll node

unfoldable pub poll_loop : Decimal → Caps → (Thread → Bool) → List Poll → Node → Node
poll_loop decimal caps has_loop [] node = node
poll_loop decimal caps has_loop (poll ∷ rest) node =
    poll_loop decimal caps has_loop rest (poll_once decimal caps has_loop poll node)
