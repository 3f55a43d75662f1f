-- ===== src/A2a/Room.antt =====
-- python/propagul/a2a/room.py: `AgentRoom`.
use propagul.Prelude.{
  ℕ, ◌+◌, Bool, true, false, Option, none, some, List, [], ◌∷◌, ◌++◌, map, if◌then◌else◌, ltb, Text,
  codes, ℤ, length, keep,
}
use propagul.Prelude.Dict.{Dict, contains, insert, erase}
use propagul.Crdt.Defs.{Caps}
use propagul.Config.Defs.{File, Call}
use propagul.A2a.State.{
  A2aConfig, AgentInfo, SharedAgentState, Clock, new_state, set_meta, flush_room,
}

pub record AgentRoom : Type 0 where
  pub room_id : Text
  pub config : A2aConfig
  pub members : Dict AgentInfo
  pub state : Option SharedAgentState
  pub created_at : ℕ

abbrev pub new_room : Text → A2aConfig → ℕ → AgentRoom
new_room room_id config now = record {
  room_id = room_id;
  config = config;
  members = [];
  state = none;
  created_at = now;
}

-- `",".join(parts)`
unfoldable pub join_with : ℕ → List Text → Text
join_with sep [] = []
join_with sep (part ∷ []) = part
join_with sep (part ∷ p ∷ parts) = part ++ sep ∷ join_with sep (p ∷ parts)

-- one call of `join`: `hash(agent_id) % 2 ** 31`, the clock of the member, that of the state, those of
-- the two writes, and the room's file, which is read if the state is made
pub record JoinCall : Type 0 where
  pub node : ℤ
  pub now : ℕ
  pub clock : Clock
  pub member_call : Call
  pub caps_call : Call
  pub file : File

-- the state of the room, made if there is none yet: none where that raises
unfoldable pub state_of : Caps → JoinCall → AgentRoom → Text → Option SharedAgentState
state_of caps c room agent_id = elim room.state [
  | none ↦ new_state caps c.clock c.node room.room_id agent_id room.config c.file
  | some s ↦ some s
]

unfoldable pub announce : Caps → JoinCall → SharedAgentState → Text → List Text → SharedAgentState
announce caps c s agent_id capabilities =
    set_meta caps c.caps_call
      (set_meta caps c.member_call s (codes "member:" ++ agent_id) (codes "joined"))
      (codes "member:" ++ agent_id ++ codes ":caps") (join_with 44 capabilities)

unfoldable pub join_state :
    Caps → JoinCall → AgentRoom → Text → List Text → Option SharedAgentState → AgentRoom
join_state caps c room agent_id capabilities none = room
join_state caps c room agent_id capabilities (some s) = record room {
  state = some (announce caps c s agent_id capabilities);
}

-- `join`, with the AgentInfo, which is none where it raises
unfoldable pub join :
    Caps → JoinCall → AgentRoom → Text → List Text → Dict Text → AgentRoom × Option AgentInfo
join caps c room agent_id capabilities metadata =
    let info : AgentInfo = record {
      agent_id = agent_id;
      last_seen = c.now;
      capabilities = capabilities;
      metadata = metadata;
    } in
    let room' = record room { members = insert agent_id info room.members } in
    let made = state_of caps c room' agent_id in
    (
      join_state caps c room' agent_id capabilities made,
      elim made [ none ↦ none | some _ ↦ some info ],
    )

unfoldable pub leave_state : Caps → Call → Text → Option SharedAgentState → Option SharedAgentState
leave_state caps call agent_id none = none
leave_state caps call agent_id (some s) =
    some (set_meta caps call s (codes "member:" ++ agent_id) (codes "left"))

unfoldable pub leave : Caps → Call → AgentRoom → Text → AgentRoom × Bool
leave caps call room agent_id =
    if contains agent_id room.members
    then (
      record room {
        members = erase agent_id room.members;
        state = leave_state caps call agent_id room.state;
      },
      true,
    )
    else (room, false)

abbrev pub members_of : AgentRoom → List AgentInfo
members_of room = map (λ e. e.1) room.members

-- seen within the last 5 minutes
abbrev pub is_active : ℕ → AgentInfo → Bool
is_active now info = ltb now (info.last_seen + 300)

abbrev pub active_members : ℕ → AgentRoom → List AgentInfo
active_members now room = keep (is_active now) (members_of room)

abbrev pub member_count : AgentRoom → ℕ
member_count room = length room.members

abbrev pub has_member : AgentRoom → Text → Bool
has_member room agent_id = contains agent_id room.members

-- `flush`
unfoldable pub flush : Call → AgentRoom → AgentRoom × Bool
flush call room = elim room.state [
  | none ↦ (room, false)
  | some s ↦ let (s', done) = flush_room call s in (record room { state = some s' }, done)
]
