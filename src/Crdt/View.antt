-- ===== src/Crdt/View.antt =====
-- What a map holds, with order and caps forgotten: the value that a key has under a tag, and the
-- tags that are dead. `merge` of `crdt.py` is a join of such views.
pub mod Remote
mod Step
mod Keys
pub mod Snapshots
pub mod Converge
use propagul.Prelude.{
  ◌+◌, ◌≤◌, ◌≡◌, sym, ap, subst, ◌∙◌, Bool, ◌||◌, Option, none, List, arith, if◌then◌else◌, Text,
  dec_text, length,
}
use propagul.Prelude.Finite.{member, IsDistinct}
use propagul.Prelude.Dict.{Dict, keys}
use propagul.Json.{Json}
use propagul.Crdt.Defs.{Caps, Tag, dec_tag, Entry, OrMap, entries_at}
use propagul.Crdt.Merge.{merge_keys, absorb, prune, live, merge_dict}
use propagul.Crdt.Invariant.{IsValid}
use propagul.Crdt.Invariant.Merging.{merge_keys-IsDistinct, absorb-keeps}
use propagul.Crdt.Eviction.{gc_below}
use Remote.{
  value_of, prefer, parsed_entries, parsed_tags, remote_entries, remote_tombstones, remote_at,
  value_of-live, member-absorb,
}
use Step.{here}
use Keys.{value_of-merge_keys, here-prune}

-- the value that `key` has under `t`
unfoldable pub view : OrMap → Text → Tag → Option Text
view m key t = value_of t (entries_at m key)

unfoldable pub is_dead : OrMap → Tag → Bool
is_dead m t = member dec_tag t m.tombstones

-- A remote snapshot fits: it is a dict, and none of the three caps is met while it is merged.
pub record Fits (caps : Caps) (m : OrMap) (d : Dict Json) : Type 0 where
  pub distinct : IsDistinct dec_text (keys (remote_entries d))
  pub room_keys : length m.entries + length (remote_entries d) ≤ caps.max_keys
  pub room_entries :
      (key : Text)
      → length (entries_at m key) + length (remote_at (remote_entries d) key)
        ≤ caps.max_entries_per_key
  pub room_tombstones : length m.tombstones + length (remote_tombstones d) ≤ caps.max_tombstones

-- what the remote snapshot says
unfoldable pub remote_view : Dict Json → Text → Tag → Option Text
remote_view d key t = value_of t (parsed_entries (remote_at (remote_entries d) key))

unfoldable pub remote_dead : Dict Json → Tag → Bool
remote_dead d t = member dec_tag t (parsed_tags (remote_tombstones d))

module _ (caps : Caps) (m : OrMap) (d : Dict Json) (valid : IsValid caps m)
    (fits : Fits caps m d) where
  dead : List Tag
  dead = absorb caps m.tombstones (remote_tombstones d)

  dead_few : length dead ≤ caps.max_tombstones
  unfolding dead
  dead_few =
      (absorb-keeps caps m.tombstones (remote_tombstones d) valid.distinct_tombstones
        valid.few_tombstones).1

  -- After a merge a tag is dead exactly if it was dead on one of the two sides.
  pub is_dead-merge_dict :
      (t : Tag) → is_dead (merge_dict caps m d).0 t ≡ (is_dead m t || remote_dead d t)
  unfolding is_dead remote_dead merge_dict dead
  is_dead-merge_dict t =
      ap (member dec_tag t) (gc_below caps dead dead_few)
      ∙ member-absorb caps t m.tombstones (remote_tombstones d) fits.room_tombstones

  -- After a merge a key has under a tag what one of the two sides had, unless the tag is dead.
  pub view-merge_dict :
      (key : Text) (t : Tag)
      → view (merge_dict caps m d).0 key t ≡ (
          if is_dead m t || remote_dead d t
          then none
          else prefer (view m key t) (remote_view d key t))
  unfolding view is_dead remote_dead remote_view merge_dict dead
  view-merge_dict key t =
      let remote = remote_entries d in
      let local = (merge_keys caps m.tombstones (m.entries, 0) remote).0 in
      ap (value_of t) (here-prune dead key local (merge_keys-IsDistinct caps m remote valid))
      ∙ value_of-live dead t (here key local)
      ∙ ground (
        arith,
        member-absorb caps t m.tombstones (remote_tombstones d) fits.room_tombstones,
        value_of-merge_keys caps m.tombstones t key (m.entries, 0) remote fits.distinct
            fits.room_keys (fits.room_entries key),
      )
