-- ===== src/Config/Tables.antt =====
-- python/propagul/mesh/config.py: the keys of the four tables of `FleetConfigMap`, its writes and
-- its reads.
use propagul.Prelude.{
  ℕ, Bool, true, false, ◌&&◌, ◌||◌, not, Option, none, some, List, [], ◌∷◌, ◌++◌, if◌then◌else◌,
  ite, ltb, leb, Text, codes, dec_text, length, or_else, keep,
}
use propagul.Prelude.Dict.{Dict, lookup, insert}
use propagul.Crdt.Defs.{Caps, OrMap, active_keys, get, size, tombstone_count}
use propagul.Namespaces.{strip_prefix, table}
use propagul.Config.Defs.{FleetConfigMap, Call, put, drop_key}

abbrev pub desired_prefix : Text
desired_prefix = codes "desired:model:"

abbrev pub fleet_prefix : Text
fleet_prefix = codes "fleet:setting:"

abbrev pub node_prefix : Text → Text
node_prefix node_id = codes "node:" ++ node_id ++ codes ":pref:"

abbrev pub model_key : Text → Text → Text
model_key model key = codes "model:" ++ model ++ codes ":setting:" ++ key

abbrev pub is_action : Text → Bool
is_action action =
    ite (dec_text action (codes "pull")) true (ite (dec_text action (codes "delete")) true false)

-- none where it raises ValueError
unfoldable pub set_desired_model :
    Caps → Call → FleetConfigMap → Text → Text → Option FleetConfigMap
set_desired_model caps call c model action =
    if not (is_action action) then none else some (put caps call c (desired_prefix ++ model) action)

unfoldable pub remove_desired_model : Caps → Call → FleetConfigMap → Text → FleetConfigMap
remove_desired_model caps call c model = drop_key caps call c (desired_prefix ++ model)

unfoldable pub get_desired_models : FleetConfigMap → Dict Text
get_desired_models c = table desired_prefix c.crdt

unfoldable pub set_node_preference :
    Caps → Call → FleetConfigMap → Text → Text → Text → FleetConfigMap
set_node_preference caps call c node_id pref_key value =
    put caps call c (node_prefix node_id ++ pref_key) value

unfoldable pub get_node_preferences : FleetConfigMap → Text → Dict Text
get_node_preferences c node_id = table (node_prefix node_id) c.crdt

-- the characters that `str.strip` removes
unfoldable pub is_space : ℕ → Bool
is_space c =
    (leb 9 c && leb c 13)
    || (leb 28 c && leb c 32)
    || (leb 133 c && leb c 133)
    || (leb 160 c && leb c 160)
    || (leb 5760 c && leb c 5760)
    || (leb 8192 c && leb c 8202)
    || (leb 8232 c && leb c 8233)
    || (leb 8239 c && leb c 8239)
    || (leb 8287 c && leb c 8287)
    || (leb 12288 c && leb c 12288)

-- `value.strip() == ""`
unfoldable pub is_blank : Text → Bool
is_blank [] = true
is_blank (c ∷ cs) = is_space c && is_blank cs

unfoldable pub set_model_setting :
    Caps → Call → FleetConfigMap → Text → Text → Text → FleetConfigMap
set_model_setting caps call c model key value =
    if is_blank value
    then drop_key caps call c (model_key model key)
    else put caps call c (model_key model key) value

unfoldable pub get_model_setting : FleetConfigMap → Text → Text → Option Text
get_model_setting c model key = get c.crdt (model_key model key)

unfoldable pub set_fleet_setting : Caps → Call → FleetConfigMap → Text → Text → FleetConfigMap
set_fleet_setting caps call c key value = put caps call c (fleet_prefix ++ key) value

unfoldable pub get_fleet_setting : FleetConfigMap → Text → Option Text
get_fleet_setting c key = get c.crdt (fleet_prefix ++ key)

unfoldable pub get_all_fleet_settings : FleetConfigMap → Dict Text
get_all_fleet_settings c = table fleet_prefix c.crdt

-- `s.find(sep)`, with what stands before it and after it
unfoldable pub split_at : Text → Text → Option (Text × Text)
split_at sep [] = elim (strip_prefix sep []) [ none ↦ none | some after ↦ some ([], after) ]
split_at sep (c ∷ s) =
    let rest = split_at sep s in
    elim (strip_prefix sep (c ∷ s)) [
      | none ↦ elim rest [ none ↦ none | some p ↦ some (c ∷ p.0, p.1) ]
      | some after ↦ some ([], after)
    ]

abbrev pub contains_text : Text → Text → Bool
contains_text sep s = elim (split_at sep s) [ none ↦ false | some _ ↦ true ]

-- `result[model_name][setting_key] = val`
unfoldable pub add_setting :
    Option (Text × Text) → Option Text → Dict (Dict Text) → Dict (Dict Text)
add_setting (some (model, key)) (some val) result =
    if ltb 0 (length model)
    then insert model (insert key val (or_else (lookup model result) [])) result
    else result
add_setting _ _ result = result

unfoldable pub model_and_key : Text → Option (Text × Text)
model_and_key key = elim (strip_prefix (codes "model:") key) [
  | none ↦ none
  | some after_prefix ↦
      if contains_text (codes ":setting:") key
      then split_at (codes ":setting:") after_prefix
      else none
]

unfoldable pub collect_settings : OrMap → List Text → Dict (Dict Text) → Dict (Dict Text)
collect_settings m [] result = result
collect_settings m (key ∷ keys) result =
    collect_settings m keys (add_setting (model_and_key key) (get m key) result)

unfoldable pub get_all_model_settings : FleetConfigMap → Dict (Dict Text)
get_all_model_settings c = collect_settings c.crdt (active_keys c.crdt) []

pub record Summary : Type 0 where
  pub total_keys : ℕ
  pub desired_models : ℕ
  pub desired_pull : ℕ
  pub desired_delete : ℕ
  pub tombstones : ℕ

-- `sum(1 for v in d.values() if v == action)`
abbrev pub count_of : Text → Dict Text → ℕ
count_of action d = length (keep (λ e. ite (dec_text e.1 action) true false) d)

unfoldable pub summary : FleetConfigMap → Summary
summary c =
    let desired = get_desired_models c in
    record {
      total_keys = size c.crdt;
      desired_models = length desired;
      desired_pull = count_of (codes "pull") desired;
      desired_delete = count_of (codes "delete") desired;
      tombstones = tombstone_count c.crdt;
    }
