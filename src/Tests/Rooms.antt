-- ===== src/Tests/Rooms.antt =====
-- Rooms of agents, and their shared state.
use propagul.Prelude.{
  ◌≡◌, refl, true, false, none, some, List, [], ◌∷◌, arith, ite, Text, codes, dec_text, pos,
}
use propagul.Prelude.Finite.{member}
use propagul.Prelude.Dict.{lookup, contains}
use propagul.Crdt.Defs.{Caps, crdt_caps}
use propagul.Crdt.Invariant.{IsValid}
use propagul.Crdt.Writes.{is_full}
use propagul.Config.Defs.{missing, Call}
use propagul.A2a.State.{
  default_config, AgentInfo, SharedAgentState, Clock, set_shared, get_shared, get_agent_state,
}
use propagul.A2a.Room.{AgentRoom, JoinCall, has_member}
use propagul.A2a.Writes.{get-set_shared, set_shared_full}
use propagul.A2a.Members.{Visit, enter, exit, visit_all, is_inside, has_member-visit_all}
use propagul.Tests.Nodes.{ada}

abbrev shared : SharedAgentState
shared = record {
  room = codes "alpha";
  agent_id = codes "ann";
  config = default_config;
  crdt = ada;
  agents = [];
  last_save_time = 0;
  dirty = false;
  file = missing;
}

abbrev save_call : Call
save_call = record { now = 5; saved_at = 6; writes = true }

abbrev clock : Clock
clock = record { stamp = codes "5.0"; seen_at = 5; call = save_call }

never_full : (key : Text) → is_full crdt_caps ada key ≡ false
never_full key = ground arith

get-set_shared_example :
    (s' : SharedAgentState) × ((set_shared crdt_caps clock shared (codes "task") (codes "done")
        ≡ some s')
      × (((x : Text)
            → get_shared s' x
              ≡ ite (dec_text (codes "task") x) (some (codes "done")) (get_shared shared x))
          × ((a x : Text) → lookup x (get_agent_state s' a) ≡ lookup x (get_agent_state shared a))))
get-set_shared_example =
    get-set_shared crdt_caps clock shared (codes "task") (codes "done") (omega arith) (never_full _)

-- caps that one key meets
abbrev one_key : Caps
one_key = record { max_tombstones = 5; max_entries_per_key = 5; max_keys = 1 }

ada-IsValid_one : IsValid one_key ada
unfolding member
ada-IsValid_one = record {
  few_keys = omega arith;
  distinct_keys = (refl, tt);
  few_tombstones = omega arith;
  distinct_tombstones = (refl, tt);
  at_key =
      (record { fit = record { few = omega arith; distinct = (refl, tt) }; held = λ e. cc }, tt);
}

full : is_full one_key ada (codes "shared:task") ≡ true
unfolding contains lookup dec_text
full = refl

set_shared_full_example :
    (s' : SharedAgentState) × ((set_shared one_key clock shared (codes "task") (codes "done")
        ≡ some s')
      × (get_shared s' (codes "task") ≡ none))
set_shared_full_example =
    set_shared_full one_key clock shared (codes "task") (codes "done") ada-IsValid_one (omega arith)
      full

abbrev ann : AgentInfo
ann = record { agent_id = codes "ann"; last_seen = 4; capabilities = []; metadata = [] }

abbrev room : AgentRoom
room = record {
  room_id = codes "alpha";
  config = default_config;
  members = (codes "ann", ann) ∷ [];
  state = some shared;
  created_at = 1;
}

abbrev join_call : JoinCall
join_call = record {
  node = pos 7;
  now = 5;
  clock = clock;
  member_call = save_call;
  caps_call = save_call;
  file = missing;
}

abbrev visits : List Visit
visits =
    exit save_call (codes "ann")
    ∷ enter join_call (codes "ben") [] []
    ∷ enter join_call (codes "ann") (codes "rag" ∷ []) []
    ∷ exit save_call (codes "ben")
    ∷ []

has_member-visit_all_example :
    has_member (visit_all crdt_caps visits room) (codes "ann")
    ≡ is_inside (codes "ann") (has_member room (codes "ann")) visits
has_member-visit_all_example = has_member-visit_all crdt_caps (codes "ann") room visits

back : is_inside (codes "ann") true visits ≡ true
unfolding is_inside dec_text
back = refl

known : has_member room (codes "ann") ≡ true
unfolding contains lookup dec_text
known = refl
