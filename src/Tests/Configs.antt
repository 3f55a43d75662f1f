-- ===== src/Tests/Configs.antt =====
-- Configurations: writes to the tables, saves that are put off, and a restart.
use propagul.Prelude.{
  ◌≡◌, refl, true, false, none, List, [], ◌∷◌, arith, Text, codes, dec_text, pos, dec_int,
}
use propagul.Prelude.Finite.{member}
use propagul.Prelude.Dict.{lookup}
use propagul.Json.{Json, dict, list}
use propagul.Crdt.Defs.{crdt_caps, dec_tag, get}
use propagul.Crdt.Merge.{merge, tag_json}
use propagul.Crdt.View.{view, is_dead}
use propagul.Crdt.View.Remote.{value_of}
use propagul.Crdt.Writes.{is_full}
use propagul.Config.Defs.{
  content, FleetConfigMap, Call, file_data, flush_to_disk, new_config, merge_config, save_merged,
}
use propagul.Config.Tables.{is_action}
use propagul.Config.Saving.{Op, put_op, drop_op, run, AllAdd, flush-run}
use propagul.Config.Restarts.{Reloads, get-new_config, restart-undoes_merge}
use propagul.Tests.Nodes.{ada, ada-IsValid}
use propagul.Tests.Replicas.{program}

abbrev saved : FleetConfigMap
saved = record {
  crdt = ada;
  persist_path = codes "config.json";
  debounce_seconds = 2;
  last_save_time = 10;
  dirty = false;
  file = content (file_data ada);
}

-- a call within the two seconds, and one that writes
abbrev early : Call
early = record { now = 11; saved_at = 11; writes = true }

abbrev late : Call
late = record { now = 20; saved_at = 21; writes = true }

abbrev calls : List (Call × Op)
calls =
    (early, put_op (codes "fleet:setting:ctx") (codes "4096")) ∷ (early, drop_op (codes "x")) ∷ []

calls-AllAdd : AllAdd crdt_caps calls saved
unfolding AllAdd
calls-AllAdd = (tt, (tt, tt))

flush-run_example :
    (flush_to_disk late (run crdt_caps calls saved)).0.file
    ≡ content (file_data (run crdt_caps calls saved).crdt)
flush-run_example = flush-run crdt_caps calls late saved refl calls-AllAdd (λ p d. refl) refl

ada-Reloads : Reloads crdt_caps (pos 1) ada
unfolding view is_dead value_of lookup member dec_tag dec_int
ada-Reloads = record {
  valid = ada-IsValid;
  room = record { keys = omega arith; entries = λ key. ground arith; tombstones = omega arith };
  clean = λ key t h. ground arith;
}

get-new_config_example :
    get
      (new_config crdt_caps (pos 1) (codes "config.json") 2 (content (file_data ada))).crdt
      (codes "x")
    ≡ get ada (codes "x")
get-new_config_example =
    get-new_config crdt_caps (pos 1) (codes "config.json") 2 ada (codes "x") refl ada-Reloads

-- another node has deleted "x"
abbrev deleted : Json
deleted =
    dict
      ((codes "entries", dict []) ∷ (codes "tombstones", list (tag_json (pos 1, pos 2) ∷ [])) ∷ [])

gone : get (merge_config crdt_caps late saved deleted).0.crdt (codes "x") ≡ none
unfolding program merge_config save_merged
gone = refl

nothing_added : (merge crdt_caps ada deleted).1 ≡ 0
unfolding program
nothing_added = refl

restart-undoes_merge_example :
    get
      (new_config crdt_caps
        (pos 1)
        (codes "config.json")
        2
        (flush_to_disk late (merge_config crdt_caps late saved deleted).0).0.file).crdt
      (codes "x")
    ≡ get ada (codes "x")
restart-undoes_merge_example =
    restart-undoes_merge crdt_caps late late saved deleted (pos 1) (codes "x") refl (λ p d. refl)
      refl nothing_added ada-Reloads

never_full : (key : Text) → is_full crdt_caps ada key ≡ false
never_full key = ground arith

known : is_action (codes "pull") ≡ true
unfolding dec_text
known = refl
