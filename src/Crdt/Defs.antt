-- ===== src/Crdt/Defs.antt =====
-- python/propagul/crdt.py: the state of `ORMap`, its writes, its reads and the eviction of
-- tombstones. The three caps are globals of that file; here they are an argument.
use propagul.Prelude.{
  ℕ, ◌+◌, ◌-◌, ap, Bool, ◌&&◌, not, Option, none, some, List, [], ◌∷◌, map, if◌then◌else◌, ite, leb,
  Text, ℤ, pos, dec_int, ltb_ℤ, length, take, or_else,
}
use propagul.Prelude.Finite.{add, discard}
use propagul.Prelude.Dict.{Dict, lookup, contains, insert, erase, keys}

pub record Caps : Type 0 where
  pub max_tombstones : ℕ
  pub max_entries_per_key : ℕ
  pub max_keys : ℕ

abbrev pub crdt_caps : Caps
crdt_caps = record { max_tombstones = 50000; max_entries_per_key = 64; max_keys = 4096 }

-- (node_id, sequence_number)
abbrev pub Tag : Type 0
Tag = ℤ × ℤ

unfoldable pub dec_tag : Discrete Tag
unfolding dec_int
dec_tag t u = elim (dec_int t.0 u.0) [
  | yes p ↦ elim (dec_int t.1 u.1) [
    | yes q ↦ yes (λ i. (p i, q i))
    | no q ↦ no (λ e. q (ap (λ (v : Tag). v.1) e))
  ]
  | no p ↦ no (λ e. p (ap (λ (v : Tag). v.0) e))
]

pub record Entry : Type 0 where
  pub value : Text
  pub tag : Tag

pub record OrMap : Type 0 where
  pub node_id : ℤ
  pub seq : ℕ
  pub entries : Dict (List Entry)
  pub tombstones : List Tag

-- `ORMap(node_id)`
abbrev pub new : ℤ → OrMap
new node = record { node_id = node; seq = 0; entries = []; tombstones = [] }

-- Python's order of tuples: `a < b`.
unfoldable pub tag_lt : Tag → Tag → Bool
tag_lt (n, s) (n', s') = ite (dec_int n n') (ltb_ℤ s s') (ltb_ℤ n n')

-- the key of the sort in `_gc_tombstones`: (t[1], t[0])
abbrev pub swapped : Tag → Tag
swapped (n, s) = (s, n)

-- `sorted(tombstones, key=λ t. (t[1], t[0]))`
unfoldable pub insert_sorted : Tag → List Tag → List Tag
insert_sorted t [] = t ∷ []
insert_sorted t (u ∷ us) =
    let rest = insert_sorted t us in if tag_lt (swapped u) (swapped t) then u ∷ rest else t ∷ u ∷ us

unfoldable pub sort_tags : List Tag → List Tag
sort_tags [] = []
sort_tags (t ∷ ts) = insert_sorted t (sort_tags ts)

unfoldable pub discard_all : List Tag → List Tag → List Tag
discard_all [] s = s
discard_all (t ∷ ts) s = discard_all ts (discard dec_tag t s)

-- `_gc_tombstones`
unfoldable pub gc_tombstones : Caps → List Tag → List Tag
gc_tombstones caps ts =
    if leb (length ts) caps.max_tombstones
    then ts
    else discard_all (take (length ts - caps.max_tombstones) (sort_tags ts)) ts

abbrev pub tags : List Entry → List Tag
tags = map (λ e. e.tag)

-- the loop that adds the tag of each entry of a key to the tombstones
unfoldable pub bury : List Entry → List Tag → List Tag
bury [] s = s
bury (e ∷ es) s = bury es (add dec_tag e.tag s)

-- `self._entries.get(key, [])`
abbrev pub entries_at : OrMap → Text → List Entry
entries_at m key = or_else (lookup key m.entries) []

unfoldable pub set : Caps → OrMap → Text → Text → OrMap
set caps m key value =
    if not (contains key m.entries) && leb caps.max_keys (length m.entries) then m else record m {
      seq = m.seq + 1;
      entries =
          insert key (record { value = value; tag = (m.node_id, pos (m.seq + 1)) } ∷ []) m.entries;
      tombstones = gc_tombstones caps (bury (entries_at m key) m.tombstones);
    }

unfoldable pub delete : Caps → OrMap → Text → OrMap
delete caps m key = record m {
  entries = erase key m.entries;
  tombstones = gc_tombstones caps (bury (entries_at m key) m.tombstones);
}

-- `max(entries, key=λ e. e.tag)`: the first of the greatest
unfoldable pub best : Entry → List Entry → Entry
best b [] = b
best b (e ∷ es) = best (if tag_lt b.tag e.tag then e else b) es

unfoldable pub winner : List Entry → Option Entry
winner [] = none
winner (e ∷ es) = some (best e es)

unfoldable pub get : OrMap → Text → Option Text
get m key = elim (winner (entries_at m key)) [ none ↦ none | some e ↦ some e.value ]

unfoldable pub get_all : OrMap → Text → List Text
get_all m key = map (λ e. e.value) (entries_at m key)

-- `keys`, `__len__`, `__contains__`, `tombstone_count`
abbrev pub active_keys : OrMap → List Text
active_keys m = keys m.entries

abbrev pub size : OrMap → ℕ
size m = length m.entries

abbrev pub has_key : OrMap → Text → Bool
has_key m key = contains key m.entries

abbrev pub tombstone_count : OrMap → ℕ
tombstone_count m = length m.tombstones
