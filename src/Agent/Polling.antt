-- ===== src/Agent/Polling.antt =====
-- What the counters of the agent show after any number of polls.
use propagul.Prelude.{
  ℕ, ◌+◌, ◌≡◌, refl, ap, ◌∙◌, Bool, true, false, ◌&&◌, not, Option, none, some, List, [], ◌∷◌,
  arith, if◌then◌else◌, length,
}
use propagul.Crdt.Defs.{Caps}
use propagul.Config.Defs.{FleetConfigMap}
use propagul.Agent.Numbers.{Decimal}
use propagul.Agent.Reconcile.{Stats}
use propagul.Agent.Sync.{Dashboard, SyncCalls, pull_config, pushed, sync_config}
use propagul.Agent.Loop.{
  Thread, worker, Node, Poll, heartbeat, sync_node, create_reconcile, push_telemetry, poll_once,
  poll_loop,
}

-- the telemetry of a poll is collected, and its heartbeat can be built
abbrev pub is_sound : Poll → Bool
is_sound poll = poll.collects && (poll.rewrites && poll.requests)

-- how many polls count an error
unfoldable pub failed : Bool → List Poll → ℕ
failed auto_pull [] = 0
failed auto_pull (poll ∷ rest) =
    failed auto_pull rest + (if is_sound poll && not auto_pull then 0 else 1)

-- What an exchange leaves of the counters.
stats-sync_config :
    (caps : Caps) (calls : SyncCalls) (key : Bool) (dashboard : Dashboard) (c : FleetConfigMap)
    (stats : Stats)
    → let after = (sync_config caps calls key dashboard (c, stats)).1 in
      (after.polls ≡ stats.polls)
      × (after.pushes ≡ stats.pushes)
      × (after.errors ≡ stats.errors)
      × (after.auto_pulls ≡ stats.auto_pulls)
unfolding sync_config pushed
stats-sync_config caps calls false dashboard c stats = (refl, refl, refl, refl)
stats-sync_config caps calls true dashboard c stats =
    go (pull_config caps calls.at_pull c dashboard.answer)
  where
    go :
        (o : Option FleetConfigMap)
        → let after = (pushed caps calls.at_push dashboard stats (c, stats) o).1 in
          (after.polls ≡ stats.polls)
          × (after.pushes ≡ stats.pushes)
          × (after.errors ≡ stats.errors)
          × (after.auto_pulls ≡ stats.auto_pulls)
    go none = (refl, refl, refl, refl)
    go (some c') = (refl, refl, refl, refl)

-- What one poll changes of the counters and of what decides about the next.
record Counted (auto_pull : Bool) (n : ℕ) (polls : ℕ) (before after : Node) : Type 0 where
  errors : after.stats.errors ≡ before.stats.errors + n
  pushes : after.stats.pushes + n ≡ before.stats.pushes + polls
  tasks : after.reconciles ≡ before.reconciles
  key : after.has_key ≡ before.has_key
  pulls : after.auto_pull ≡ before.auto_pull
  busy : after.pull_in_progress ≡ before.pull_in_progress

Counted-poll_once :
    (decimal : Decimal) (caps : Caps) (has_loop : Thread → Bool) (poll : Poll) (node : Node)
    → has_loop worker ≡ false
    → node.has_key ≡ true
    → node.pull_in_progress ≡ false
    → Counted node.auto_pull
        (if is_sound poll && not node.auto_pull then 0 else 1)
        1
        node
        (poll_once decimal caps has_loop poll node)
unfolding poll_once push_telemetry sync_node heartbeat create_reconcile
Counted-poll_once decimal caps has_loop poll node no_loop key idle = ground (
  arith,
  stats-sync_config caps poll.calls node.has_key poll.dashboard node.config
      (record node.stats { polls = node.stats.polls + 1 }),
)

-- With an API key, no reconciliation in progress and no event loop in a worker thread, any sequence of
-- polls adds one error for each poll whose telemetry is not collected, whose backend URLs are not
-- rewritten or whose requests cannot be built, and, with auto-pull on, for every poll; it adds a push
-- for each other poll; and it starts no reconciliation.
pub poll_loop-Counts :
    (decimal : Decimal) (caps : Caps) (has_loop : Thread → Bool) (polls : List Poll) (node : Node)
    → has_loop worker ≡ false
    → node.has_key ≡ true
    → node.pull_in_progress ≡ false
    → let after = poll_loop decimal caps has_loop polls node in
      (after.stats.errors ≡ node.stats.errors + failed node.auto_pull polls)
      × (after.stats.pushes + failed node.auto_pull polls ≡ node.stats.pushes + length polls)
      × (after.reconciles ≡ node.reconciles)
unfolding poll_loop failed
poll_loop-Counts decimal caps has_loop [] node no_loop key idle = omega arith
poll_loop-Counts decimal caps has_loop (poll ∷ rest) node no_loop key idle =
    let next = poll_once decimal caps has_loop poll node in
    let c = Counted-poll_once decimal caps has_loop poll node no_loop key idle in
    ground (
      arith,
      c.errors,
      c.pushes,
      c.tasks,
      c.pulls,
      poll_loop-Counts decimal caps has_loop rest next no_loop (c.key ∙ key) (c.busy ∙ idle),
      ap (λ b. failed b rest) c.pulls,
    )
