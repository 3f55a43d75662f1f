-- ===== src/Config/Defs.antt =====
-- python/propagul/mesh/config.py: the state of `FleetConfigMap` and its file. Times are natural
-- numbers of one unit. What the operating system does is an argument: the clock, and whether the
-- file is written. A map without a path has an empty one.
use propagul.Prelude.{
  ℕ, ◌+◌, ◌^◌, Bool, true, false, not, Option, none, some, [], ◌∷◌, if◌then◌else◌, ite, ltb, leb,
  Text, codes, ℤ, pos, dec_int, length,
}
use propagul.Prelude.Dict.{Dict}
use propagul.Json.{Json, bool, int, float, dict, as_dict}
use propagul.Crdt.Defs.{Caps, OrMap, new, set, delete}
use propagul.Crdt.Merge.{get_field, merge, snapshot}

-- what stands at the path: no file, a text that is no JSON, a file that cannot be read or decoded, or
-- the value that `json.load` reads
pub data File : Type 0 where
  missing : File
  corrupt : File
  unreadable : File
  content : Json → File

pub record FleetConfigMap : Type 0 where
  pub crdt : OrMap
  pub persist_path : Text
  pub debounce_seconds : ℕ
  pub last_save_time : ℕ
  pub dirty : Bool
  pub file : File

-- one call: the clock when it tests the debouncing, the clock after the file is written, and whether
-- that succeeds
pub record Call : Type 0 where
  pub now : ℕ
  pub saved_at : ℕ
  pub writes : Bool

-- `if self._persist_path`
abbrev pub persists : FleetConfigMap → Bool
persists c = ltb 0 (length c.persist_path)

-- the dict that `save_to_disk` builds
abbrev pub file_data : OrMap → Json
file_data m = dict ((codes "version", int (pos 1)) ∷ (codes "snapshot", snapshot m) ∷ [])

unfoldable pub save_to_disk : Call → FleetConfigMap → FleetConfigMap × Bool
save_to_disk call c =
    if not (persists c)
    then (c, false)
    else if call.writes
    then (
      record c { file = content (file_data c.crdt); last_save_time = call.saved_at; dirty = false },
      true,
    )
    else (c, false)

unfoldable pub auto_save : Call → FleetConfigMap → FleetConfigMap
auto_save call c =
    if not (persists c)
    then c
    else if leb (c.last_save_time + c.debounce_seconds) call.now
    then (save_to_disk call (record c { dirty = true })).0
    else record c { dirty = true }

unfoldable pub flush_to_disk : Call → FleetConfigMap → FleetConfigMap × Bool
flush_to_disk call c = if c.dirty then save_to_disk call c else (c, false)

-- `version == 1`, as Python compares: `True` and 1.0 are equal to 1
unfoldable pub is_one : Json → Bool
is_one (int z) = ite (dec_int z (pos 1)) true false
is_one (bool b) = b
is_one (float z k) = ite (dec_int z (pos (2 ^ k))) true false
is_one _ = false

-- the snapshot of a file of version 1, if it is a dict
unfoldable pub load_snapshot : Caps → OrMap → Json → OrMap × ℕ
load_snapshot caps m j = elim (as_dict j) [ none ↦ (m, 0) | some _ ↦ merge caps m j ]

unfoldable pub load_dict : Caps → OrMap → Option (Dict Json) → OrMap × ℕ
load_dict caps m none = (m, 0)
load_dict caps m (some d) =
    if is_one (get_field (codes "version") d)
    then load_snapshot caps m (get_field (codes "snapshot") d)
    else (m, 0)

-- a value that is no dict has no `get`: the exception is caught
unfoldable pub load_file : Caps → OrMap → File → OrMap × ℕ
load_file caps m missing = (m, 0)
load_file caps m corrupt = (m, 0)
load_file caps m unreadable = (m, 0)
load_file caps m (content j) = load_dict caps m (as_dict j)

unfoldable pub load_from_disk : Caps → FleetConfigMap → FleetConfigMap × ℕ
load_from_disk caps c =
    if not (persists c)
    then (c, 0)
    else let (crdt', delta) = load_file caps c.crdt c.file in (record c { crdt = crdt' }, delta)

-- `FleetConfigMap(node_id, persist_path, debounce_seconds)`, where the path holds `file`
unfoldable pub new_config : Caps → ℤ → Text → ℕ → File → FleetConfigMap
new_config caps node path debounce file' =
    (load_from_disk caps (record {
      crdt = new node;
      persist_path = path;
      debounce_seconds = debounce;
      last_save_time = 0;
      dirty = false;
      file = file';
    })).0

-- A call of `_crdt.set` or `_crdt.delete`, and `_auto_save`.
unfoldable pub put : Caps → Call → FleetConfigMap → Text → Text → FleetConfigMap
put caps call c key value = auto_save call (record c { crdt = set caps c.crdt key value })

unfoldable pub drop_key : Caps → Call → FleetConfigMap → Text → FleetConfigMap
drop_key caps call c key = auto_save call (record c { crdt = delete caps c.crdt key })

-- the rest of `merge`: only a merge that adds an entry is saved
unfoldable pub save_merged : Call → FleetConfigMap → OrMap × ℕ → FleetConfigMap × ℕ
save_merged call c (crdt', delta) =
    if ltb 0 delta
    then (auto_save call (record c { crdt = crdt' }), delta)
    else (record c { crdt = crdt' }, delta)

-- `merge`, with `delta`
unfoldable pub merge_config : Caps → Call → FleetConfigMap → Json → FleetConfigMap × ℕ
merge_config caps call c remote = save_merged call c (merge caps c.crdt remote)
