-- ===== src/Crdt/Restart.antt =====
-- The sequence number of `ORMap` starts at 0 and is not moved on by `merge`. A node that restarts
-- from its own snapshot makes tags a second time, and those that it had buried before are dead.
use propagul.Prelude.{
  ◌+◌, ◌≤◌, ◌<◌, ◌≡◌, refl, ap, ◌∙◌, true, false, Option, none, some, [], ◌∷◌, arith, Text,
  dec_text, pos, length, if_pos,
}
use propagul.Prelude.Finite.{member, IsDistinct}
use propagul.Crdt.Defs.{
  Caps, Tag, dec_tag, Entry, OrMap, new, tags, entries_at, set, get, winner, best,
}
use propagul.Json.{as_dict}
use propagul.Crdt.Merge.{merge, merge_checked, merge_dict, snapshot}
use propagul.Crdt.Invariant.{IsValid, set-IsValid, new-IsValid}
use propagul.Crdt.View.{view, is_dead}
use propagul.Crdt.View.Remote.{value_of}
use propagul.Crdt.View.Snapshots.{sync, Room, view-sync, is_dead-sync}
use propagul.Crdt.View.Converge.{at_key-IsDistinct, sync-IsValid, winner_of_views}
use propagul.Crdt.Writes.{is_full, entries_at-set, is_dead-set}

-- the tag that the next write of a node gets
abbrev pub next_tag : OrMap → Tag
next_tag m = (m.node_id, pos (m.seq + 1))

-- A write at `key` that is not dropped, and a merge of a node that has nothing at `key`; no cap is
-- met.
pub record Plain (caps : Caps) (m : OrMap) (key value : Text) (n : OrMap) : Type 0 where
  pub some_room : 0 < caps.max_entries_per_key
  pub free : is_full caps m key ≡ false
  pub few : length m.tombstones + length (entries_at m key) ≤ caps.max_tombstones
  pub m_valid : IsValid caps m
  pub n_valid : IsValid caps n
  pub room : Room caps (set caps m key value) n
  pub nothing : entries_at n key ≡ []

abbrev value_of_winner : Option Entry → Option Text
value_of_winner o = elim o [ none ↦ none | some e ↦ some e.value ]

module _ (caps : Caps) (m : OrMap) (key value : Text) (n : OrMap)
    (plain : Plain caps m key value n) where
  written : entries_at (set caps m key value) key ≡ record { value = value; tag = next_tag m } ∷ []
  written =
      entries_at-set caps m key value key plain.free
      ∙ if_pos (dec_text key key) refl (record { value = value; tag = next_tag m } ∷ [])
          (entries_at m key)

  views_gone :
      (t : Tag)
      → is_dead m (next_tag m) ≡ true
      → view (sync caps (set caps m key value) n) key t ≡ none
  unfolding view value_of
  views_gone t dead = ground (
    arith,
    view-sync caps (set caps m key value) n
        (set-IsValid caps m key value plain.some_room plain.m_valid) plain.n_valid plain.room key t,
    is_dead-set caps m key plain.few value t plain.free,
    ap (value_of t) written,
    ap (value_of t) plain.nothing,
  )

  after : OrMap
  after = sync caps (set caps m key value) n

  after-IsDistinct : IsDistinct dec_tag (tags (entries_at after key))
  unfolding after
  after-IsDistinct = at_key-IsDistinct caps (sync caps (set caps m key value) n) key (
      sync-IsValid caps (set caps m key value) n
        (set-IsValid caps m key value plain.some_room plain.m_valid))

  -- A write whose tag is dead already is lost in the next merge.
  pub get_of_reused_tag :
      is_dead m (next_tag m) ≡ true → get (sync caps (set caps m key value) n) key ≡ none
  unfolding get view winner value_of after
  get_of_reused_tag dead =
      ap value_of_winner
        (winner_of_views (entries_at after key) [] after-IsDistinct tt (λ t. views_gone t dead))

  views_kept :
      (t : Tag)
      → is_dead m (next_tag m) ≡ false
      → member dec_tag (next_tag m) (tags (entries_at m key)) ≡ false
      → is_dead n (next_tag m) ≡ false
      → view (sync caps (set caps m key value) n) key t
        ≡ value_of t (record { value = value; tag = next_tag m } ∷ [])
  unfolding view value_of
  views_kept t dead absent dead' = ground (
    arith,
    view-sync caps (set caps m key value) n
        (set-IsValid caps m key value plain.some_room plain.m_valid) plain.n_valid plain.room key t,
    is_dead-set caps m key plain.few value t plain.free,
    ap (value_of t) written,
    ap (value_of t) plain.nothing,
  )

  -- A write whose tag is new is what the key reads as after the merge.
  pub get_of_fresh_tag :
      is_dead m (next_tag m) ≡ false
      → member dec_tag (next_tag m) (tags (entries_at m key)) ≡ false
      → is_dead n (next_tag m) ≡ false
      → get (sync caps (set caps m key value) n) key ≡ some value
  unfolding get view winner best after member
  get_of_fresh_tag dead absent dead' = ap value_of_winner (
      winner_of_views (entries_at after key) (record { value = value; tag = next_tag m } ∷ [])
        after-IsDistinct (refl, tt) (λ t. views_kept t dead absent dead'))

-- A restarted node: a new map that merges what the node had saved.
unfoldable pub restart : Caps → OrMap → OrMap
restart caps saved = sync caps (new saved.node_id) saved

next_tag-restart :
    (caps : Caps) (saved : OrMap) → next_tag (restart caps saved) ≡ (saved.node_id, pos 1)
unfolding restart sync merge merge_checked snapshot as_dict merge_dict
next_tag-restart caps saved = refl

is_dead-restart :
    (caps : Caps) (saved : OrMap) (t : Tag)
    → IsValid caps saved
    → Room caps (new saved.node_id) saved
    → is_dead (restart caps saved) t ≡ is_dead saved t
unfolding restart is_dead member
is_dead-restart caps saved t v r =
    is_dead-sync caps (new saved.node_id) saved (new-IsValid caps saved.node_id) v r t

-- A node that had buried its first tag before it was saved loses its first write after a restart.
pub restart_loses_write :
    (caps : Caps) (saved : OrMap) (key value : Text) (n : OrMap)
    → IsValid caps saved
    → Room caps (new saved.node_id) saved
    → is_dead saved (saved.node_id, pos 1) ≡ true
    → Plain caps (restart caps saved) key value n
    → get (sync caps (set caps (restart caps saved) key value) n) key ≡ none
restart_loses_write caps saved key value n v r dead plain =
    get_of_reused_tag caps (restart caps saved) key value n plain (
      ap (is_dead (restart caps saved)) (next_tag-restart caps saved)
      ∙ is_dead-restart caps saved (saved.node_id, pos 1) v r
      ∙ dead)
