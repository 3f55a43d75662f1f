-- ===== src/Crdt/Invariant.antt =====
-- The invariant of `ORMap`: the three caps, and that no key, tag or tombstone stands twice.
pub mod Merging
use propagul.Prelude.{
  ℤ, pos, ℕ, zero, suc, ◌+◌, ◌≤◌, ◌<◌, ◌≡◌, ◌≢◌, refl, Bool, true, false, ◌&&◌, not, Option, none,
  some, List, [], ◌∷◌, ◌++◌, map, arith, if◌then◌else◌, ite, Bool-cases, inl, inr, ltb, leb, Text,
  dec_text, length, keep, or_else,
}
use propagul.Prelude.Finite.{member, IsDistinct, add, add-IsDistinct, member-append}
use propagul.Prelude.Dict.{
  Dict, lookup, contains, insert, erase, keys, length-insert, length-erase-le, insert-IsDistinct,
  erase-IsDistinct, AllValues, AllValues-lookup, AllValues-insert, AllValues-erase,
}
use propagul.Json.{Json, as_dict, as_list}
use propagul.Crdt.Defs.{
  Caps, Tag, dec_tag, Entry, OrMap, new, tags, gc_tombstones, bury, entries_at, set, delete,
}
use propagul.Crdt.Merge.{
  merge_entry, merge_entries, merge_key, merge_keys, parse_entry, parse_tag, absorb, live, prune,
  merge_dict, merge,
}
use propagul.Crdt.Eviction.{gc-IsDistinct, length-gc}

-- The entries of one key, while a merge runs.
pub record IsFit (caps : Caps) (es : List Entry) : Type 0 where
  pub few : length es ≤ caps.max_entries_per_key
  pub distinct : IsDistinct dec_tag (tags es)

-- The entries of one key between operations: there is at least one.
pub record IsHeld (caps : Caps) (es : List Entry) : Type 0 where
  pub fit : IsFit caps es
  pub held : es ≢ []

pub record IsValid (caps : Caps) (m : OrMap) : Type 0 where
  pub few_keys : length m.entries ≤ caps.max_keys
  pub distinct_keys : IsDistinct dec_text (keys m.entries)
  pub few_tombstones : length m.tombstones ≤ caps.max_tombstones
  pub distinct_tombstones : IsDistinct dec_tag m.tombstones
  pub at_key : AllValues (IsHeld caps) m.entries

bury-IsDistinct :
    (es : List Entry) (s : List Tag) → IsDistinct dec_tag s → IsDistinct dec_tag (bury es s)
unfolding bury
bury-IsDistinct [] s d = d
bury-IsDistinct (e ∷ es) s d =
    bury-IsDistinct es (add dec_tag e.tag s) (add-IsDistinct dec_tag e.tag s d)

module _ (caps : Caps) where
  pub new-IsValid : (node : ℤ) → IsValid caps (new node)
  new-IsValid node = omega arith

  pub length-gc-le :
      (ts : List Tag) → IsDistinct dec_tag ts → length (gc_tombstones caps ts) ≤ caps.max_tombstones
  length-gc-le ts d = omega (arith, length-gc caps ts d)

  -- A write keeps the invariant, whether it is done or dropped.
  pub set-IsValid :
      (m : OrMap) (key value : Text)
      → 0 < caps.max_entries_per_key
      → IsValid caps m
      → IsValid caps (set caps m key value)
  unfolding set member
  set-IsValid m key value room v =
      elim (Bool-cases (not (contains key m.entries) && leb caps.max_keys (length m.entries))) [
        | inl full ↦ rw full v
        | inr free ↦ rw free (record {
          few_keys = ground (arith, length-insert key fresh m.entries, v.few_keys);
          distinct_keys = insert-IsDistinct key fresh m.entries v.distinct_keys;
          few_tombstones = length-gc-le dead dead-IsDistinct;
          distinct_tombstones = gc-IsDistinct caps dead dead-IsDistinct;
          at_key =
              AllValues-insert (IsHeld caps) key fresh m.entries
                (record {
                  fit = record { few = omega arith; distinct = (refl, tt) };
                  held = λ e. cc;
                })
                v.at_key;
        })
      ]
    where
      fresh : List Entry
      fresh = record { value = value; tag = (m.node_id, pos (m.seq + 1)) } ∷ []

      dead : List Tag
      dead = bury (entries_at m key) m.tombstones

      dead-IsDistinct : IsDistinct dec_tag dead
      dead-IsDistinct = bury-IsDistinct (entries_at m key) m.tombstones v.distinct_tombstones

  pub delete-IsValid : (m : OrMap) (key : Text) → IsValid caps m → IsValid caps (delete caps m key)
  unfolding delete
  delete-IsValid m key v =
      let dead = bury (entries_at m key) m.tombstones in
      let d : IsDistinct dec_tag dead =
        bury-IsDistinct (entries_at m key) m.tombstones v.distinct_tombstones in
      record {
        few_keys = omega (arith, length-erase-le key m.entries, v.few_keys);
        distinct_keys = erase-IsDistinct key m.entries v.distinct_keys;
        few_tombstones = length-gc-le dead d;
        distinct_tombstones = gc-IsDistinct caps dead d;
        at_key = AllValues-erase (IsHeld caps) key m.entries v.at_key;
      }
