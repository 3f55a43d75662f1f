-- ===== src/Crdt/Writes.antt =====
-- What `set` and `delete` do, as the node itself and as the nodes that merge its snapshot see it.
use propagul.Prelude.{
  ◌+◌, ◌≤◌, ◌≡◌, refl, ap, ◌∙◌, Bool, true, false, not, ◌&&◌, ◌||◌, none, some, List, [], ◌∷◌,
  arith, if◌then◌else◌, ite, leb, Text, dec_text, pos, length, or_else, if_pos,
}
use propagul.Prelude.Finite.{member, add, member-add, length-add-le}
use propagul.Prelude.Dict.{lookup, contains, lookup-insert, lookup-erase}
use propagul.Crdt.Defs.{
  Caps, Tag, dec_tag, Entry, OrMap, tags, entries_at, set, delete, get, best, winner, bury,
  gc_tombstones,
}
use propagul.Crdt.Eviction.{gc_below}
use propagul.Crdt.Invariant.{IsValid, delete-IsValid}
use propagul.Crdt.View.{view, is_dead}
use propagul.Crdt.View.Remote.{value_of}
use propagul.Crdt.View.Snapshots.{sync, Room, view-sync}

-- `set` drops the write: the key is new, and there are as many keys as the cap allows.
abbrev pub is_full : Caps → OrMap → Text → Bool
is_full caps m key = not (contains key m.entries) && leb caps.max_keys (length m.entries)

module _ (caps : Caps) (m : OrMap) (key value : Text) where
  -- A dropped write changes nothing at all.
  pub set_full : is_full caps m key ≡ true → set caps m key value ≡ m
  unfolding set
  set_full h = rw h

  -- Any other write leaves one entry at the key, with the next tag of the node, and the entries of
  -- every other key as they were.
  pub entries_at-set :
      (j : Text)
      → is_full caps m key ≡ false
      → entries_at (set caps m key value) j
        ≡ ite
            (dec_text key j)
            (record { value = value; tag = (m.node_id, pos (m.seq + 1)) } ∷ [])
            (entries_at m j)
  unfolding set
  entries_at-set j h = rw h (
      ground (
        arith,
        lookup-insert key j (record { value = value; tag = (m.node_id, pos (m.seq + 1)) } ∷ [])
            m.entries,
      ))

  -- After a write that is not dropped, the key reads as the value, and other keys read as before.
  pub get-set :
      (j : Text)
      → is_full caps m key ≡ false
      → get (set caps m key value) j ≡ ite (dec_text key j) (some value) (get m j)
  unfolding get winner best
  get-set j h = ground (arith, entries_at-set j)

-- After a delete the key reads as nothing, and other keys read as before.
pub get-delete :
    (caps : Caps) (m : OrMap) (key j : Text)
    → get (delete caps m key) j ≡ ite (dec_text key j) none (get m j)
unfolding get winner delete
get-delete caps m key j = ground (arith, lookup-erase key j m.entries)

member-bury :
    (t : Tag) (es : List Entry) (s : List Tag)
    → member dec_tag t (bury es s) ≡ (member dec_tag t s || member dec_tag t (tags es))
unfolding bury member
member-bury t [] s = ground arith
member-bury t (e ∷ es) s =
    ground (arith, member-bury t es (add dec_tag e.tag s), member-add dec_tag e.tag t s)

length-bury-le : (es : List Entry) (s : List Tag) → length (bury es s) ≤ length s + length es
unfolding bury
length-bury-le [] s = omega arith
length-bury-le (e ∷ es) s =
    omega (arith, length-bury-le es (add dec_tag e.tag s), length-add-le dec_tag e.tag s)

module _ (caps : Caps) (m : OrMap) (key : Text)
    (room : length m.tombstones + length (entries_at m key) ≤ caps.max_tombstones) where
  gc-bury :
      gc_tombstones caps (bury (entries_at m key) m.tombstones)
      ≡ bury (entries_at m key) m.tombstones
  gc-bury = gc_below caps _ (omega (arith, room, length-bury-le (entries_at m key) m.tombstones))

  is_dead-delete :
      (t : Tag)
      → is_dead (delete caps m key) t ≡ (is_dead m t || member dec_tag t (tags (entries_at m key)))
  unfolding is_dead delete
  is_dead-delete t = ap (member dec_tag t) gc-bury ∙ member-bury t (entries_at m key) m.tombstones

  pub is_dead-set :
      (value : Text) (t : Tag)
      → is_full caps m key ≡ false
      → is_dead (set caps m key value) t
        ≡ (is_dead m t || member dec_tag t (tags (entries_at m key)))
  unfolding is_dead set
  is_dead-set value t h =
      rw h (ap (member dec_tag t) gc-bury ∙ member-bury t (entries_at m key) m.tombstones)

  entries_at-delete : entries_at (delete caps m key) key ≡ []
  unfolding delete
  entries_at-delete =
      ap (λ o. or_else o [])
        (lookup-erase key key m.entries
          ∙ if_pos (dec_text key key) refl none (lookup key m.entries))

  -- A node that merges the snapshot taken after a delete loses exactly the entries that the deleting
  -- node had seen, or that were dead already: a write that it had not seen survives.
  pub view-sync-delete :
      (n : OrMap) (t : Tag)
      → IsValid caps n
      → IsValid caps m
      → Room caps n (delete caps m key)
      → view (sync caps n (delete caps m key)) key t ≡ (
          if is_dead n t || (is_dead m t || member dec_tag t (tags (entries_at m key)))
          then none
          else view n key t)
  unfolding view value_of
  view-sync-delete n t vn vm r = ground (
    arith,
    view-sync caps n (delete caps m key) vn (delete-IsValid caps m key vm) r key t,
    is_dead-delete t,
    ap (value_of t) entries_at-delete,
  )
