-- ===== src/Tests/Routing.antt =====
-- The theorems on routing, at a fleet of two nodes.
use propagul.Prelude.{
  ◌+◌, ◌≡◌, ◌≢◌, refl, inl, true, some, List, [], ◌∷◌, arith, pos, codes, dec_text, keep,
}
use propagul.Prelude.Finite.{member}
use propagul.Prelude.Dict.{lookup, insert}
use propagul.Prelude.Sorting.{sort_by, insert_by}
use propagul.Router.Tracker.{count, run, Call, start, finish, starts, finishes, count-run}
use propagul.Json.{str}
use propagul.Router.EventLog.{RoutingEvent, RoutingEventLog}
use propagul.Router.Fleet.{BackendTarget, has_model, is_stale, nodes_with_model, nodes_by_free_vram}
use propagul.Router.Select.{
  Router, is_remote, preferred, first, choose, select, or_by_vram, select_ordered,
}
use propagul.Router.Choice.{IsChosen, select-IsChosen}
use propagul.Router.Ordered.{select_ordered-ne-select}

abbrev big : BackendTarget
big = record {
  node_id = codes "big";
  backend_name = codes "ollama";
  backend_url = codes "http://10.0.0.1:11434";
  models = codes "llama" ∷ [];
  free_vram = pos 12000;
  backend_auth = [];
}

abbrev tiny : BackendTarget
tiny = record big { node_id = codes "tiny"; models = codes "mistral" ∷ []; free_vram = pos 2000 }

-- one request is open at "big"
abbrev router : Router
router = record {
  fleet = record { targets = tiny ∷ big ∷ []; updated_at = 1000 };
  local_node_id = codes "me";
  tracker = (codes "big", 1) ∷ [];
}

program : Unit {0}
unfolding dec_text keep member lookup insert sort_by insert_by count is_stale has_model
    nodes_with_model nodes_by_free_vram is_remote preferred choose select or_by_vram select_ordered
    starts finishes
program = tt

select-IsChosen_example : IsChosen router (codes "llama") 2000 (select router (codes "llama") 2000)
select-IsChosen_example = select-IsChosen router (codes "llama") 2000

has_llama : nodes_with_model router.fleet (codes "llama") ≢ []
unfolding program
has_llama e = cc

no_gpt :
    (nodes_with_model router.fleet (codes "gpt") ≡ [])
    × (select router (codes "gpt") 2000 ≡ some big)
    × (preferred router tiny big ≡ true)
unfolding program
no_gpt = (refl, refl, refl)

select_ordered-ne-select_example :
    first (select_ordered router (codes "gpt") 2000) ≢ select router (codes "gpt") 2000
select_ordered-ne-select_example =
    select_ordered-ne-select router (codes "gpt") 2000 big tiny no_gpt.0 no_gpt.1 (inl refl)
      no_gpt.2

abbrev calls : List Call
calls = start (codes "big") ∷ start (codes "tiny") ∷ finish (codes "big") ∷ []

count-run_example :
    count (run [] calls) (codes "big") + finishes (codes "big") calls
    ≡ count [] (codes "big") + starts (codes "big") calls
unfolding program
count-run_example = count-run (codes "big") calls [] (omega arith, tt)

abbrev event : RoutingEvent
event = record {
  timestamp = 5;
  model = str (codes "llama");
  target_node = codes "big";
  target_backend = codes "ollama";
  reason = codes "model_affinity";
}

abbrev log : RoutingEventLog
log = record { events = []; maxlen = 2 }
