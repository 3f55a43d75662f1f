-- ===== src/A2a/State.antt =====
-- python/propagul/a2a/state.py and types.py: `SharedAgentState`. As in Config/Defs.antt, the clock and
-- the file are arguments; so are the texts of `str(time.time())` and how `float` reads them.
use propagul.Prelude.{
  ℕ, ◌+◌, Bool, true, false, not, Option, none, some, List, [], ◌∷◌, ◌++◌, if◌then◌else◌, ltb, leb,
  Text, codes, ℤ, pos, length, or_else,
}
use propagul.Prelude.Dict.{Dict, lookup, contains, insert}
use propagul.Json.{Json, str, arr, obj, int, dict, as_dict, to_list, to_dict}
use propagul.Crdt.Defs.{Caps, OrMap, new, set, delete, get, size, active_keys}
use propagul.Crdt.Merge.{get_field, merge, snapshot}
use propagul.Namespaces.{strip_prefix, table}
use propagul.Config.Defs.{File, missing, corrupt, unreadable, content, Call, is_one, load_snapshot}

pub record A2aConfig : Type 0 where
  pub persist_path : Text
  pub debounce_seconds : ℕ
  pub agent_ttl_seconds : ℕ
  pub max_keys_per_room : ℕ

-- the defaults, in whole seconds
abbrev pub default_config : A2aConfig
default_config = record {
  persist_path = [];
  debounce_seconds = 2;
  agent_ttl_seconds = 300;
  max_keys_per_room = 10000;
}

pub record AgentInfo : Type 0 where
  pub agent_id : Text
  pub last_seen : ℕ
  pub capabilities : List Text
  pub metadata : Dict Text

pub record SharedAgentState : Type 0 where
  pub room : Text
  pub agent_id : Text
  pub config : A2aConfig
  pub crdt : OrMap
  pub agents : Dict AgentInfo
  pub last_save_time : ℕ
  pub dirty : Bool
  pub file : File

-- one call: the clock of `_touch_presence`, as text and as a number, and that of a save
pub record Clock : Type 0 where
  pub stamp : Text
  pub seen_at : ℕ
  pub call : Call

-- `if self._persist_path`: the path of the room's file is empty only without a configured one
abbrev pub has_path : SharedAgentState → Bool
has_path s = ltb 0 (length s.config.persist_path)

abbrev pub room_data : Text → OrMap → Json
room_data room m = dict (
    (codes "version", int (pos 1)) ∷ (codes "room", str room) ∷ (codes "snapshot", snapshot m) ∷ [])

unfoldable pub save_room : Call → SharedAgentState → SharedAgentState × Bool
save_room call s =
    if not (has_path s)
    then (s, false)
    else if call.writes
    then (
      record s {
        file = content (room_data s.room s.crdt);
        last_save_time = call.saved_at;
        dirty = false;
      },
      true,
    )
    else (s, false)

unfoldable pub auto_save_room : Call → SharedAgentState → SharedAgentState
auto_save_room call s =
    if not (has_path s)
    then s
    else if leb (s.last_save_time + s.config.debounce_seconds) call.now
    then (save_room call (record s { dirty = true })).0
    else record s { dirty = true }

-- `flush_to_disk`: whether dirty or not
unfoldable pub flush_room : Call → SharedAgentState → SharedAgentState × Bool
flush_room call s = if has_path s then save_room call s else (s, false)

unfoldable pub load_room_dict : Caps → OrMap → Dict Json → OrMap
load_room_dict caps m d =
    if is_one (get_field (codes "version") d)
    then (load_snapshot caps m (get_field (codes "snapshot") d)).0
    else m

-- `_load_from_disk`: what is not caught is none, the AttributeError of a value that has no `get` and the
-- error of a file that cannot be read or decoded
unfoldable pub load_room : Caps → OrMap → File → Option OrMap
load_room caps m missing = some m
load_room caps m corrupt = some m
load_room caps m unreadable = none
load_room caps m (content j) = elim (as_dict j) [
  | none ↦ none
  | some d ↦ some (load_room_dict caps m d)
]

abbrev pub seen_key : Text → Text
seen_key agent_id = codes "meta:agent_seen:" ++ agent_id

abbrev pub shared_key : Text → Text
shared_key key = codes "shared:" ++ key

abbrev pub meta_key : Text → Text
meta_key key = codes "meta:" ++ key

abbrev pub private_key : Text → Text → Text
private_key agent_id key = codes "agent:" ++ agent_id ++ codes ":" ++ key

-- what `_agents` has for an agent that was seen
abbrev pub seen : Text → ℕ → Dict AgentInfo → AgentInfo
seen agent_id now agents =
    let known =
      or_else (lookup agent_id agents)
        (record { agent_id = agent_id; last_seen = now; capabilities = []; metadata = [] }) in
    record known { last_seen = now }

unfoldable pub touch_presence : Caps → Clock → SharedAgentState → SharedAgentState
touch_presence caps clock s = record s {
  crdt = set caps s.crdt (seen_key s.agent_id) clock.stamp;
  agents = insert s.agent_id (seen s.agent_id clock.seen_at s.agents) s.agents;
}

-- `SharedAgentState(room, agent_id, node_id, config)`, where the room's file is `file`: none where it
-- raises
unfoldable pub new_state :
    Caps → Clock → ℤ → Text → Text → A2aConfig → File → Option SharedAgentState
new_state caps clock node room agent_id config file =
    let loaded =
      if ltb 0 (length config.persist_path)
      then load_room caps (new node) file
      else some (new node) in
    elim loaded [
      | none ↦ none
      | some m ↦ some (
          touch_presence caps clock (record {
            room = room;
            agent_id = agent_id;
            config = config;
            crdt = m;
            agents = [];
            last_save_time = 0;
            dirty = false;
            file = file;
          }))
    ]

-- `_crdt.set`
unfoldable pub write : Caps → SharedAgentState → Text → Text → SharedAgentState
write caps s key value = record s { crdt = set caps s.crdt key value }

-- `set`: none where it raises ValueError
unfoldable pub set_shared : Caps → Clock → SharedAgentState → Text → Text → Option SharedAgentState
set_shared caps clock s key value =
    if leb s.config.max_keys_per_room (size s.crdt)
    then none
    else some (
        auto_save_room clock.call (touch_presence caps clock (write caps s (shared_key key) value)))

unfoldable pub get_shared : SharedAgentState → Text → Option Text
get_shared s key = get s.crdt (shared_key key)

unfoldable pub delete_shared : Caps → Clock → SharedAgentState → Text → SharedAgentState
delete_shared caps clock s key =
    auto_save_room clock.call (record s { crdt = delete caps s.crdt (shared_key key) })

unfoldable pub get_all_shared : SharedAgentState → Dict Text
get_all_shared s = table (codes "shared:") s.crdt

unfoldable pub set_private : Caps → Clock → SharedAgentState → Text → Text → SharedAgentState
set_private caps clock s key value =
    auto_save_room clock.call
      (touch_presence caps clock (write caps s (private_key s.agent_id key) value))

unfoldable pub get_private : SharedAgentState → Text → Option Text
get_private s key = get s.crdt (private_key s.agent_id key)

unfoldable pub get_agent_state : SharedAgentState → Text → Dict Text
get_agent_state s agent_id = table (codes "agent:" ++ agent_id ++ codes ":") s.crdt

unfoldable pub set_meta : Caps → Call → SharedAgentState → Text → Text → SharedAgentState
set_meta caps call s key value = auto_save_room call (write caps s (meta_key key) value)

unfoldable pub get_meta : SharedAgentState → Text → Option Text
get_meta s key = get s.crdt (meta_key key)

pub record SyncResult : Type 0 where
  pub delta : ℕ
  pub local_keys : ℕ
  pub remote_keys : ℕ

-- `len(v)`: none where it raises TypeError
unfoldable pub json_length : Json → Option ℕ
json_length (str s) = some (length s)
json_length (arr js) = some (length (to_list js))
json_length (obj fs) = some (length (to_dict fs))
json_length _ = none

-- `len(remote_snapshot.get("entries", {}))`: none where it raises
unfoldable pub remote_length : Json → Option ℕ
remote_length j = elim (as_dict j) [
  | none ↦ none
  | some d ↦ json_length (or_else (lookup (codes "entries") d) (dict []))
]

unfoldable pub sync_merged : Call → SharedAgentState → ℕ → OrMap × ℕ → SharedAgentState × SyncResult
sync_merged call s remote (crdt', delta) =
    let s' = record s { crdt = crdt' } in
    let result : SyncResult = record {
      delta = delta;
      local_keys = size crdt';
      remote_keys = remote;
    } in
    if ltb 0 delta then (auto_save_room call s', result) else (s', result)

-- `merge`: none where it raises, before the map is changed
unfoldable pub merge_state :
    Caps → Call → SharedAgentState → Json → Option (SharedAgentState × SyncResult)
merge_state caps call s j = elim (remote_length j) [
  | none ↦ none
  | some remote ↦ some (sync_merged call s remote (merge caps s.crdt j))
]

-- one turn of the loop of `get_active_agents`: an object of `_agents` is changed in place
unfoldable pub add_active :
    (Text → Option ℕ)
    → ℕ
    → SharedAgentState
    → Text
    → Dict AgentInfo × List AgentInfo
    → Dict AgentInfo × List AgentInfo
add_active read_time now s key (agents, active) =
    elim (strip_prefix (codes "meta:agent_seen:") key) [
      | none ↦ (agents, active)
      | some agent_id ↦ elim (get s.crdt key) [
        | none ↦ (agents, active)
        | some ts ↦ elim (read_time ts) [
          | none ↦ (agents, active)
          | some last_seen ↦
              let info = seen agent_id last_seen agents in
              if ltb now (last_seen + s.config.agent_ttl_seconds)
              then (
                (if contains agent_id agents then insert agent_id info agents else agents),
                active ++ info ∷ [],
              )
              else (agents, active)
        ]
      ]
    ]

unfoldable pub active_loop :
    (Text → Option ℕ)
    → ℕ
    → SharedAgentState
    → List Text
    → Dict AgentInfo × List AgentInfo
    → Dict AgentInfo × List AgentInfo
active_loop read_time now s [] acc = acc
active_loop read_time now s (key ∷ keys) acc =
    active_loop read_time now s keys (add_active read_time now s key acc)

unfoldable pub get_active_agents :
    (Text → Option ℕ) → ℕ → SharedAgentState → SharedAgentState × List AgentInfo
get_active_agents read_time now s =
    let (agents', active) = active_loop read_time now s (active_keys s.crdt) (s.agents, []) in
    (record s { agents = agents' }, active)
