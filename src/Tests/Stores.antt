-- ===== src/Tests/Stores.antt =====
-- A store that receives messages.
use propagul.Prelude.{◌≡◌, true, none, some, [], if◌then◌else◌, codes}
use propagul.Prelude.Dict.{lookup}
use propagul.Crdt.Defs.{crdt_caps, get}
use propagul.Store.{AgentStateStore, same_value, notices}
use propagul.Store.Notices.{lookup-notices}
use propagul.Tests.Nodes.{ada, bob, ada-IsValid, bob-IsValid}

abbrev store : AgentStateStore
store = record {
  bind_host = codes "0.0.0.0";
  bind_port = 9001;
  crdt = ada;
  gossip_stats = record {
    rounds = 0;
    push_sent = 0;
    pull_sent = 0;
    merges = 0;
    delta_keys_received = 0;
  };
  peers = [];
  running = true;
  change_callbacks = 1;
}

lookup-notices_example : lookup (codes "x") (notices ada bob) ≡ (
    if same_value (get bob (codes "x")) (get ada (codes "x"))
    then none
    else some (get bob (codes "x")))
lookup-notices_example = lookup-notices crdt_caps ada bob (codes "x") ada-IsValid bob-IsValid
