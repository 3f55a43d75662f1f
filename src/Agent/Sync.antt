-- ===== src/Agent/Sync.antt =====
-- python/propagul/mesh/agent.py: `_sync_config`. The dashboard is an argument: what it answers to the
-- GET, and to the body of the POST; none where the request raises.
use propagul.Prelude.{
  ◌+◌, Bool, Option, none, some, [], ◌∷◌, if◌then◌else◌, codes, ltb, length, or_else,
}
use propagul.Prelude.Dict.{Dict}
use propagul.Json.{Json, dict, as_dict}
use propagul.Crdt.Defs.{Caps, OrMap}
use propagul.Crdt.Merge.{get_field, snapshot}
use propagul.Config.Defs.{FleetConfigMap, Call, merge_config}
use propagul.Agent.Reconcile.{Stats}

pub record Dashboard : Type 0 where
  pub answer : Option Json
  pub sync : Json → Option Json

-- the clock and the file at each of the two merges
pub record SyncCalls : Type 0 where
  pub at_pull : Call
  pub at_push : Call

-- `isinstance(data.get("snapshot"), dict)`
unfoldable pub merge_answer :
    Caps → Call → FleetConfigMap → Json → Option (Dict Json) → FleetConfigMap
merge_answer caps call c remote none = c
merge_answer caps call c remote (some _) = (merge_config caps call c remote).0

-- a response that is no dict has no `get`: the exception is caught
unfoldable pub merge_response :
    Caps → Call → FleetConfigMap → Option (Dict Json) → Option FleetConfigMap
merge_response caps call c none = none
merge_response caps call c (some response) =
    let remote = get_field (codes "snapshot") response in
    some (merge_answer caps call c remote (as_dict remote))

unfoldable pub pull_config : Caps → Call → FleetConfigMap → Option Json → Option FleetConfigMap
pull_config caps call c none = none
pull_config caps call c (some response) = merge_response caps call c (as_dict response)

-- the body of the POST
abbrev pub sync_body : OrMap → Json
sync_body m = dict ((codes "snapshot", snapshot m) ∷ [])

-- `local_snapshot.get("entries")`, and the push; its failure is no error
unfoldable pub push_config : Caps → Call → Dashboard → FleetConfigMap → FleetConfigMap
push_config caps call dashboard c =
    if ltb 0 (length c.crdt.entries)
    then or_else (pull_config caps call c (dashboard.sync (sync_body c.crdt))) c
    else c

unfoldable pub pushed :
    Caps
    → Call
    → Dashboard
    → Stats
    → FleetConfigMap × Stats
    → Option FleetConfigMap
    → FleetConfigMap × Stats
pushed caps call dashboard stats before none = before
pushed caps call dashboard stats before (some c) =
    (push_config caps call dashboard c, record stats { config_syncs = stats.config_syncs + 1 })

-- `_sync_config`, and whether there is an API key; nothing is pushed after a pull that failed
unfoldable pub sync_config :
    Caps → SyncCalls → Bool → Dashboard → FleetConfigMap × Stats → FleetConfigMap × Stats
sync_config caps calls has_key dashboard (c, stats) =
    if has_key
    then pushed caps calls.at_push dashboard stats (c, stats)
        (pull_config caps calls.at_pull c dashboard.answer)
    else (c, stats)
