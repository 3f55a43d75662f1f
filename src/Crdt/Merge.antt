-- ===== src/Crdt/Merge.antt =====
-- python/propagul/crdt.py: `merge` and `snapshot`.
use propagul.Prelude.{
  ℕ, ◌+◌, ◌&&◌, not, Option, none, some, List, [], ◌∷◌, ◌++◌, map, if◌then◌else◌, ltb, leb, Text,
  codes, length, keep, or_else,
}
use propagul.Prelude.Finite.{member, add}
use propagul.Prelude.Dict.{Dict, lookup, contains, insert}
use propagul.Json.{Json, int, str, list, dict, as_dict, as_list, as_text, as_int}
use propagul.Crdt.Defs.{Caps, Tag, dec_tag, Entry, OrMap, tags, gc_tombstones}

-- a tag: a list of two `int`s
unfoldable pub parse_pair : List Json → Option Tag
parse_pair (n ∷ s ∷ []) = elim (as_int n) [
  | none ↦ none
  | some n' ↦ elim (as_int s) [ none ↦ none | some s' ↦ some (n', s') ]
]
parse_pair _ = none

unfoldable pub parse_tag : Json → Option Tag
parse_tag j = elim (as_list j) [ none ↦ none | some js ↦ parse_pair js ]

-- `d.get(name)`, where a missing field is as good as `None`
unfoldable pub get_field : Text → Dict Json → Json
get_field name d = or_else (lookup name d) Json.null

-- the validation of one remote entry
unfoldable pub parse_fields : Dict Json → Option Entry
parse_fields d = elim (parse_tag (get_field (codes "tag") d)) [
  | none ↦ none
  | some t ↦ elim (as_text (get_field (codes "value") d)) [
    | none ↦ none
    | some v ↦ some (record { value = v; tag = t })
  ]
]

unfoldable pub parse_entry : Json → Option Entry
parse_entry j = elim (as_dict j) [ none ↦ none | some d ↦ parse_fields d ]

-- step 1, one valid remote entry: the entries of its key, and `delta`
unfoldable pub merge_entry : Caps → List Tag → List Entry × ℕ → Entry → List Entry × ℕ
merge_entry caps dead (here, delta) e =
    if not (member dec_tag e.tag dead)
      && not (member dec_tag e.tag (tags here))
      && ltb (length here) caps.max_entries_per_key
    then (here ++ e ∷ [], delta + 1)
    else (here, delta)

-- what is not valid is skipped
unfoldable pub merge_parsed : Caps → List Tag → List Entry × ℕ → Option Entry → List Entry × ℕ
merge_parsed caps dead acc none = acc
merge_parsed caps dead acc (some e) = merge_entry caps dead acc e

-- step 1, the inner loop
unfoldable pub merge_entries : Caps → List Tag → List Entry × ℕ → List Json → List Entry × ℕ
merge_entries caps dead acc [] = acc
merge_entries caps dead acc (j ∷ js) =
    merge_entries caps dead (merge_parsed caps dead acc (parse_entry j)) js

-- step 1, the entries of one remote key
unfoldable pub merge_key :
    Caps → List Tag → Dict (List Entry) × ℕ → Text → Option (List Json) → Dict (List Entry) × ℕ
merge_key caps dead acc key none = acc
merge_key caps dead (local, delta) key (some js) =
    if not (contains key local) && leb caps.max_keys (length local)
    then (local, delta)
    else let (here, delta') = merge_entries caps dead (or_else (lookup key local) [], delta) js in
      (insert key here local, delta')

-- step 1, the outer loop
unfoldable pub merge_keys :
    Caps → List Tag → Dict (List Entry) × ℕ → Dict Json → Dict (List Entry) × ℕ
merge_keys caps dead acc [] = acc
merge_keys caps dead acc ((key, j) ∷ d) =
    merge_keys caps dead (merge_key caps dead acc key (as_list j)) d

unfoldable pub add_parsed : List Tag → Option Tag → List Tag
add_parsed dead none = dead
add_parsed dead (some t) = add dec_tag t dead

-- step 2: remote tombstones, until the cap is reached
unfoldable pub absorb : Caps → List Tag → List Json → List Tag
absorb caps dead [] = dead
absorb caps dead (j ∷ js) =
    let rest = absorb caps (add_parsed dead (parse_tag j)) js in
    if leb caps.max_tombstones (length dead) then dead else rest

-- steps 3 and 4: drop what is tombstoned, then the keys that have nothing left
unfoldable pub live : List Tag → List Entry → List Entry
live dead = keep (λ e. not (member dec_tag e.tag dead))

unfoldable pub prune : List Tag → Dict (List Entry) → Dict (List Entry)
prune dead [] = []
prune dead ((key, es) ∷ d) =
    let rest = prune dead d in elim (live dead es) [ [] ↦ rest | e ∷ es' ↦ (key, e ∷ es') ∷ rest ]

-- a dict that is missing or is none counts as empty; so does a list
unfoldable pub dict_or_empty : Json → Dict Json
dict_or_empty j = or_else (as_dict j) []

unfoldable pub list_or_empty : Json → List Json
list_or_empty j = or_else (as_list j) []

unfoldable pub merge_dict : Caps → OrMap → Dict Json → OrMap × ℕ
merge_dict caps m d =
    let (local, delta) =
      merge_keys caps m.tombstones (m.entries, 0) (dict_or_empty (get_field (codes "entries") d)) in
    let dead = absorb caps m.tombstones (list_or_empty (get_field (codes "tombstones") d)) in
    (record m { entries = prune dead local; tombstones = gc_tombstones caps dead }, delta)

-- a remote value that is no dict changes nothing
unfoldable pub merge_checked : Caps → OrMap → Option (Dict Json) → OrMap × ℕ
merge_checked caps m none = (m, 0)
merge_checked caps m (some d) = merge_dict caps m d

-- the new state, and `delta`
unfoldable pub merge : Caps → OrMap → Json → OrMap × ℕ
merge caps m j = merge_checked caps m (as_dict j)

abbrev pub tag_json : Tag → Json
tag_json (n, s) = list (int n ∷ int s ∷ [])

abbrev pub entry_json : Entry → Json
entry_json e = dict ((codes "value", str e.value) ∷ (codes "tag", tag_json e.tag) ∷ [])

abbrev pub entries_json : Dict (List Entry) → Dict Json
entries_json = map (λ p. (p.0, list (map entry_json p.1)))

-- the dict that `snapshot` builds
abbrev pub snapshot_dict : OrMap → Dict Json
snapshot_dict m =
    (codes "entries", dict (entries_json m.entries))
    ∷ (codes "tombstones", list (map tag_json m.tombstones))
    ∷ []

unfoldable pub snapshot : OrMap → Json
snapshot m = dict (snapshot_dict m)
