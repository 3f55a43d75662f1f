-- ===== src/Tests/Agents.antt =====
-- The theorems on the agent, at one node.
use propagul.Prelude.{
  if◌then◌else◌, leb, ◌&&◌, ◌-◌, ◌+◌, ◌≡◌, ◌≢◌, refl, Bool, true, false, none, some, List, [], ◌∷◌,
  arith, pos, codes, length, dec_text, ℕ_discrete, Text,
}
use propagul.Prelude.Finite.{member, IsDistinct}
use propagul.Prelude.Dict.{Dict, lookup, keys}
use propagul.Crdt.Defs.{crdt_caps, new}
use propagul.Config.Defs.{missing, FleetConfigMap, Call}
use propagul.Config.Tables.{is_space, get_fleet_setting, get_model_setting, split_at}
use propagul.Namespaces.{strip_prefix}
use propagul.Config.ModelSettings.{SplitsAt}
use propagul.Agent.Numbers.{
  Decimal, read_int, read_signed, skip_space, read_digits, int_blank, int_space,
}
use propagul.Agent.Settings.{
  ProxySettings, num_ctx_of, default_num_ctx_of, apply_fleet_settings, resolve_num_ctx,
}
use propagul.Agent.Contexts.{or_default, resolve_num_ctx-apply_fleet_settings}
use propagul.Agent.Reconcile.{Stats, Backend, act_on}
use propagul.Agent.Settled.{actions, installed, named, wished, act_on-IsSettled}
use propagul.Agent.Sync.{Dashboard}
use propagul.Agent.Loop.{Thread, event_loop, worker, Node, Poll, poll_loop}
use propagul.Agent.Polling.{failed, poll_loop-Counts}
use propagul.Agent.Commands.{Command, Callback, Worker, ollama, cancel_pull, execute_all}
use propagul.Agent.ReadOnly.{executed, execute_all-IsReadOnly}
use propagul.Agent.Pull.{PullEvent, Moment, progress, cancel, cancelled, handle_pull}
use propagul.Agent.Cancelling.{
  successes, posted, IsUncancelled, handle_pull-execute_all, handle_pull-Reports,
}

abbrev zero_stats : Stats
zero_stats = record {
  polls = 0;
  pushes = 0;
  errors = 0;
  commands = 0;
  config_syncs = 0;
  auto_pulls = 0;
  auto_deletes = 0;
  ejects = 0;
}

-- one model to pull, one to delete
abbrev desired : Dict Text
desired = (codes "llama3", codes "pull") ∷ (codes "phi", codes "delete") ∷ []

desired-IsDistinct : IsDistinct dec_text (keys desired)
unfolding member dec_text ℕ_discrete
desired-IsDistinct = (refl, (refl, tt))

-- a backend that answers every command
abbrev willing : Backend
willing command model = some (codes "ok")

act_on-IsSettled_example :
    let now = installed (actions (codes "phi" ∷ []) desired) (codes "phi" ∷ []) in
    (act_on willing (codes "phi" ∷ []) desired ([], zero_stats)).0
      ≡ named willing (actions (codes "phi" ∷ []) desired)
    × ((m : Text)
        → member dec_text m now ≡ wished (lookup m desired) (member dec_text m (codes "phi" ∷ [])))
    × act_on willing now desired ([], zero_stats) ≡ ([], zero_stats)
act_on-IsSettled_example =
    act_on-IsSettled willing (codes "phi" ∷ []) desired zero_stats zero_stats desired-IsDistinct

abbrev config : FleetConfigMap
config = record {
  crdt = new (pos 1);
  persist_path = [];
  debounce_seconds = 0;
  last_save_time = 0;
  dirty = false;
  file = missing;
}

abbrev ascii : Decimal
ascii c = none

abbrev settings : ProxySettings
settings = record { ollama_keep_alive = none; default_num_ctx = none; model_num_ctx_overrides = [] }

llama3-SplitsAt : SplitsAt (codes "llama3") (codes "num_ctx")
unfolding split_at strip_prefix ℕ_discrete
llama3-SplitsAt = refl

resolve_num_ctx-apply_fleet_settings_example :
    (p' : ProxySettings) × ((apply_fleet_settings ascii config (some settings) ≡ some p')
      × (resolve_num_ctx p' (codes "llama3")
          ≡ or_default
              (num_ctx_of ascii (get_model_setting config (codes "llama3") (codes "num_ctx")))
              (default_num_ctx_of ascii
                (get_fleet_setting config (codes "default_context_length")))))
resolve_num_ctx-apply_fleet_settings_example =
    resolve_num_ctx-apply_fleet_settings ascii config settings (codes "llama3") (omega arith)
      llama3-SplitsAt

-- loops run in the thread of the event loop only
abbrev has_loop : Thread → Bool
has_loop event_loop = true
has_loop worker = false

abbrev node : Node
node = record {
  config = config;
  proxy = none;
  stats = zero_stats;
  routing_log = record { events = []; maxlen = 50 };
  has_key = true;
  auto_pull = true;
  pull_in_progress = false;
  reconciles = 0;
}

abbrev call : Call
call = record { now = 1; saved_at = 1; writes = true }

-- a dashboard that does not answer
abbrev silent : Dashboard
silent = record { answer = none; sync = λ j. none }

abbrev poll : Poll
poll = record {
  collects = true;
  rewrites = true;
  requests = true;
  calls = record { at_pull = call; at_push = call };
  dashboard = silent;
}

poll_loop-Counts_example :
    let after = poll_loop ascii crdt_caps has_loop (poll ∷ poll ∷ []) node in
    (after.stats.errors ≡ node.stats.errors + failed node.auto_pull (poll ∷ poll ∷ []))
    × (after.stats.pushes + failed node.auto_pull (poll ∷ poll ∷ [])
        ≡ node.stats.pushes + length (poll ∷ poll ∷ []))
    × (after.reconciles ≡ node.reconciles)
poll_loop-Counts_example =
    poll_loop-Counts ascii crdt_caps has_loop (poll ∷ poll ∷ []) node refl refl refl

abbrev fresh : Worker
fresh = record { stats = zero_stats; cancel_pulls = []; started = []; told = [] }

abbrev last_event : PullEvent
last_event = record { status = codes "success"; total = 5; completed = 5; now = 90000 }

handle_pull-execute_all_example :
    let cancels =
      (execute_all willing none
        (ollama, codes "http://a")
        (record { command = cancel_pull; model = codes "phi" } ∷ [])
        fresh).cancel_pulls in
    ((handle_pull (codes "phi") (progress last_event ∷ []) false cancels 0).posts ≡ cancelled ∷ [])
    × ((handle_pull (codes "phi") (progress last_event ∷ []) false cancels 0).auto_pulls ≡ 0)
handle_pull-execute_all_example =
    handle_pull-execute_all willing none ollama (codes "http://a") fresh (codes "phi") last_event []
      false 0 (omega arith) (omega arith)

abbrev moments : List Moment
moments = cancel (codes "llama3") ∷ progress last_event ∷ []

moments-IsUncancelled : IsUncancelled (codes "phi") moments
moments-IsUncancelled = (λ e. cc, tt)

no_cancel : member dec_text (codes "phi") [] ≡ false
unfolding member
no_cancel = refl

handle_pull-Reports_example :
    (posted (handle_pull (codes "phi") moments true [] 4).posts ≡ successes moments)
    × ((handle_pull (codes "phi") moments true [] 4).auto_pulls ≡ 4 + successes moments)
handle_pull-Reports_example =
    handle_pull-Reports (codes "phi") moments true [] 4 no_cancel moments-IsUncancelled

-- two commands, of which the callback raises for the second
abbrev pull_phi : List Command
pull_phi =
    record { command = codes "pull"; model = codes "phi" }
    ∷ record { command = codes "cancel_pull"; model = codes "phi" }
    ∷ []

abbrev callback : Callback
callback = some (λ c result. elim result [ none ↦ true | some _ ↦ false ])

-- a backend that raises
abbrev broken : Backend
broken command model = none

vllm-ne-ollama : codes "vllm" ≢ ollama
vllm-ne-ollama e = cc

execute_all-IsReadOnly_example :
    ((execute_all willing callback (codes "vllm", codes "http://a") pull_phi fresh).started
      ≡ fresh.started)
    × ((execute_all willing callback (codes "vllm", codes "http://a") pull_phi fresh).stats.commands
        ≡ fresh.stats.commands + executed callback pull_phi)
    × (execute_all willing callback (codes "vllm", codes "http://a") pull_phi fresh
        ≡ execute_all broken callback (codes "vllm", codes "http://a") pull_phi fresh)
execute_all-IsReadOnly_example =
    execute_all-IsReadOnly willing broken callback (codes "vllm") (codes "http://a") pull_phi fresh
      vllm-ne-ollama (omega arith)

-- the ASCII digits
abbrev digits : Decimal
digits c = if leb 48 c && leb c 57 then some (c - 48) else none

-- Spaces around a number are skipped, the separators of ASCII are not.
read_int_runs :
    (read_int digits (32 ∷ 9 ∷ 53 ∷ b'_' ∷ 49 ∷ 10 ∷ []) ≡ some (pos 51))
    × (read_int digits (28 ∷ 53 ∷ []) ≡ none)
    × (read_int digits (53 ∷ 31 ∷ []) ≡ none)
unfolding read_int read_signed skip_space read_digits int_blank int_space is_space
read_int_runs = (refl, refl, refl)
