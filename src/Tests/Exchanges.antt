-- ===== src/Tests/Exchanges.antt =====
-- The theorems on the agent's exchange with the dashboard, at two nodes.
use propagul.Prelude.{
  ◌<◌, ◌≡◌, refl, Text, true, false, none, some, [], ◌∷◌, arith, pos, codes, length,
}
use propagul.Prelude.Dict.{lookup}
use propagul.Prelude.Finite.{member}
use propagul.Crdt.Defs.{crdt_caps, OrMap, Tag}
use propagul.Crdt.View.Remote.{value_of}
use propagul.Crdt.Invariant.{IsValid}
use propagul.Crdt.View.{view, is_dead}
use propagul.Crdt.View.Snapshots.{sync, Room}
use propagul.Crdt.View.Converge.{SameView}
use propagul.Config.Defs.{missing, FleetConfigMap, Call}
use propagul.Agent.Reconcile.{Stats}
use propagul.Agent.Sync.{Dashboard, SyncCalls, sync_body, sync_config}
use propagul.Agent.Exchange.{Exchanges, sync_config-SameView}
use propagul.Agent.Unpushed.{sync_config-unpushed}
use propagul.Tests.Nodes.{ada, bob, ada-IsValid, bob-IsValid, ada-bob-Room}
use propagul.Tests.Replicas.{program, both, sync-both, ada-bob-Agree}

abbrev zero_stats : Stats
zero_stats = record {
  polls = 0;
  pushes = 0;
  errors = 0;
  commands = 0;
  config_syncs = 0;
  auto_pulls = 0;
  auto_deletes = 0;
  ejects = 0;
}

abbrev config : FleetConfigMap
config = record {
  crdt = ada;
  persist_path = [];
  debounce_seconds = 0;
  last_save_time = 0;
  dirty = false;
  file = missing;
}

abbrev call : Call
call = record { now = 1; saved_at = 1; writes = true }

abbrev calls : SyncCalls
calls = record { at_pull = call; at_push = call }

-- a dashboard whose map is that of bob
abbrev dashboard : Dashboard
dashboard = record {
  answer = some (sync_body bob);
  sync = λ j. some (sync_body (sync crdt_caps bob (sync crdt_caps ada bob)));
}

-- what the dashboard then holds
abbrev served : OrMap
served = record bob {
  entries =
      (
        codes "x",
        record { value = codes "three"; tag = (pos 2, pos 1) }
            ∷ record { value = codes "two"; tag = (pos 1, pos 2) }
            ∷ [],
      )
      ∷ [];
  tombstones = (pos 1, pos 1) ∷ [];
}

sync-served : sync crdt_caps bob both ≡ served
unfolding program
sync-served = refl

bob-both-Room : Room crdt_caps bob both
unfolding lookup
bob-both-Room = record {
  keys = omega arith;
  entries = λ key. ground arith;
  tombstones = omega arith;
}

both-served-Room : Room crdt_caps both served
unfolding lookup
both-served-Room = record {
  keys = omega arith;
  entries = λ key. ground arith;
  tombstones = omega arith;
}

ada-bob-Exchanges : Exchanges crdt_caps ada bob
ada-bob-Exchanges = record {
  m_valid = ada-IsValid;
  s_valid = bob-IsValid;
  agree = ada-bob-Agree;
  first = ada-bob-Room;
  second = rw sync-both bob-both-Room;
  third = rw sync-both (rw sync-served both-served-Room);
}

both_some : 0 < length (sync crdt_caps ada bob).entries
both_some = rw sync-both (omega arith)

sync_config-SameView_example :
    SameView
      (sync_config crdt_caps calls true dashboard (config, zero_stats)).0.crdt
      (sync crdt_caps bob (sync crdt_caps ada bob))
sync_config-SameView_example =
    sync_config-SameView crdt_caps calls dashboard config zero_stats bob
      (record { pulled = refl; pushed = refl }) ada-bob-Exchanges both_some

-- a node that has deleted the entry that bob holds
abbrev eve : OrMap
eve = record { node_id = pos 1; seq = 3; entries = []; tombstones = (pos 2, pos 1) ∷ [] }

eve-IsValid : IsValid crdt_caps eve
unfolding member
eve-IsValid = record {
  few_keys = omega arith;
  distinct_keys = tt;
  few_tombstones = omega arith;
  distinct_tombstones = (refl, tt);
  at_key = tt;
}

eve-bob-Room : Room crdt_caps eve bob
unfolding lookup
eve-bob-Room = record {
  keys = omega arith;
  entries = λ key. ground arith;
  tombstones = omega arith;
}

bob_dead : (key : Text) (t : Tag) → is_dead eve t ≡ false → view bob key t ≡ none
unfolding view is_dead value_of lookup member
bob_dead key t e = ground (arith, e)

abbrev eve_config : FleetConfigMap
eve_config = record config { crdt = eve }

sync_config-unpushed_example :
    ((sync_config crdt_caps calls true dashboard (eve_config, zero_stats)).0.crdt.entries ≡ [])
    × (sync_config crdt_caps calls true
          (record dashboard { sync = λ j. none })
          (eve_config, zero_stats)
        ≡ sync_config crdt_caps calls true dashboard (eve_config, zero_stats))
sync_config-unpushed_example =
    sync_config-unpushed crdt_caps calls dashboard (λ j. none) eve_config zero_stats bob eve-IsValid
      bob-IsValid eve-bob-Room refl bob_dead refl
