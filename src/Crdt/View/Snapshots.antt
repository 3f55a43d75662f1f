-- ===== src/Crdt/View/Snapshots.antt =====
-- A snapshot says what the map holds, and a merge of it is a join of the two maps.
use propagul.Prelude.{
  suc, ◌+◌, ◌≤◌, ◌≡◌, refl, sym, ap, subst, ◌∙◌, ◌||◌, none, some, List, [], ◌∷◌, map, arith,
  if◌then◌else◌, Text, codes, dec_text, length, or_else,
}
use propagul.Prelude.Finite.{member, IsDistinct}
use propagul.Prelude.Dict.{Dict, lookup, keys}
use propagul.Json.{
  Json, int, str, list, as_list, as_text, as_int, to_list-of_list, as_list-list, as_dict-dict,
}
use propagul.Crdt.Defs.{Caps, Tag, dec_tag, Entry, OrMap, entries_at}
use propagul.Crdt.Merge.{
  merge, merge_checked, merge_dict, parse_pair, parse_tag, parse_entry, parse_fields, get_field,
  dict_or_empty, list_or_empty, tag_json, entry_json, entries_json, snapshot, snapshot_dict,
}
use propagul.Crdt.Invariant.{IsValid}
use propagul.Crdt.View.{
  view, is_dead, Fits, remote_view, remote_dead, view-merge_dict, is_dead-merge_dict,
}
use propagul.Crdt.View.Remote.{
  value_of, prefer, cons_parsed, parsed_entries, parsed_tags, remote_entries, remote_tombstones,
  remote_at,
}

parse_tag-tag_json : (t : Tag) → parse_tag (tag_json t) ≡ some t
unfolding parse_tag parse_pair as_int
parse_tag-tag_json (n, s) = rw (as_list-list (int n ∷ int s ∷ []), parse_tag)

parse_entry-entry_json : (e : Entry) → parse_entry (entry_json e) ≡ some e
unfolding parse_entry parse_fields get_field lookup dec_text as_text
parse_entry-entry_json e =
    rw
      (
        as_dict-dict ((codes "value", str e.value) ∷ (codes "tag", tag_json e.tag) ∷ []),
        parse_entry,
      )
      (rw (parse_tag-tag_json e.tag, parse_fields))

pub parsed_tags-tag_json : (ts : List Tag) → parsed_tags (map tag_json ts) ≡ ts
unfolding parsed_tags cons_parsed
parsed_tags-tag_json [] = refl
parsed_tags-tag_json (t ∷ ts) = rw parse_tag-tag_json (ap (◌∷◌ t) (parsed_tags-tag_json ts))

pub parsed_entries-entry_json : (es : List Entry) → parsed_entries (map entry_json es) ≡ es
unfolding parsed_entries cons_parsed
parsed_entries-entry_json [] = refl
parsed_entries-entry_json (e ∷ es) =
    rw parse_entry-entry_json (ap (◌∷◌ e) (parsed_entries-entry_json es))

remote_entries-snapshot : (m : OrMap) → remote_entries (snapshot_dict m) ≡ entries_json m.entries
unfolding get_field lookup dec_text dict_or_empty
remote_entries-snapshot m = rw as_dict-dict

remote_tombstones-snapshot :
    (m : OrMap) → remote_tombstones (snapshot_dict m) ≡ map tag_json m.tombstones
unfolding get_field lookup dec_text list_or_empty
remote_tombstones-snapshot m = rw as_list-list

remote_at-entries_json :
    (key : Text) (d : Dict (List Entry))
    → remote_at (entries_json d) key ≡ map entry_json (or_else (lookup key d) [])
unfolding get_field list_or_empty lookup as_list
remote_at-entries_json key [] = refl
remote_at-entries_json key ((k, es) ∷ d) =
    ground (arith, remote_at-entries_json key d, to_list-of_list (map entry_json es))

keys-entries_json : (d : Dict (List Entry)) → keys (entries_json d) ≡ keys d
keys-entries_json [] = refl
keys-entries_json ((k, es) ∷ d) = ap (◌∷◌ k) (keys-entries_json d)

-- The snapshot of a map says of each key and tag what the map holds.
pub remote_view-snapshot :
    (m : OrMap) (key : Text) (t : Tag) → remote_view (snapshot_dict m) key t ≡ view m key t
unfolding remote_view view
remote_view-snapshot m key t =
    ap (λ r. value_of t (parsed_entries (remote_at r key))) (remote_entries-snapshot m)
    ∙ ap (λ js. value_of t (parsed_entries js)) (remote_at-entries_json key m.entries)
    ∙ ap (value_of t) (parsed_entries-entry_json (entries_at m key))

pub remote_dead-snapshot : (m : OrMap) (t : Tag) → remote_dead (snapshot_dict m) t ≡ is_dead m t
unfolding remote_dead is_dead
remote_dead-snapshot m t =
    ap (λ js. member dec_tag t (parsed_tags js)) (remote_tombstones-snapshot m)
    ∙ ap (member dec_tag t) (parsed_tags-tag_json m.tombstones)

-- `m.merge(n.snapshot())`, without `delta`
unfoldable pub sync : Caps → OrMap → OrMap → OrMap
sync caps m n = (merge caps m (snapshot n)).0

-- Together the two maps meet no cap.
pub record Room (caps : Caps) (m n : OrMap) : Type 0 where
  pub keys : length m.entries + length n.entries ≤ caps.max_keys
  pub entries :
      (key : Text)
      → length (entries_at m key) + length (entries_at n key) ≤ caps.max_entries_per_key
  pub tombstones : length m.tombstones + length n.tombstones ≤ caps.max_tombstones

length-map : {A B : Type 0} (f : A → B) (xs : List A) → length (map f xs) ≡ length xs
length-map f [] = refl
length-map f (x ∷ xs) = ap suc (length-map f xs)

module _ (caps : Caps) (m n : OrMap) (m_valid : IsValid caps m) (n_valid : IsValid caps n)
    (room : Room caps m n) where
  sync-merge_dict : sync caps m n ≡ (merge_dict caps m (snapshot_dict n)).0
  unfolding sync merge snapshot merge_checked
  sync-merge_dict = ap (λ o. (merge_checked caps m o).0) (as_dict-dict (snapshot_dict n))

  snapshot-Fits : Fits caps m (snapshot_dict n)
  snapshot-Fits = record {
    distinct =
        subst (IsDistinct dec_text)
          (sym (ap keys (remote_entries-snapshot n) ∙ keys-entries_json n.entries))
          n_valid.distinct_keys;
    room_keys = omega (
      arith,
      room.keys,
      ap (length {A = Text × Json}) (remote_entries-snapshot n),
      length-map {B = Text × Json} (λ p. (p.0, list (map entry_json p.1))) n.entries,
    );
    room_entries = λ key. omega (
      arith,
      room.entries key,
      ap (λ r. length (remote_at r key)) (remote_entries-snapshot n),
      ap (length {A = Json}) (remote_at-entries_json key n.entries),
      length-map entry_json (entries_at n key),
    );
    room_tombstones = omega (
      arith,
      room.tombstones,
      ap (length {A = Json}) (remote_tombstones-snapshot n),
      length-map tag_json n.tombstones,
    );
  }

  -- After a merge of another map's snapshot a tag is dead exactly if it is dead in one of the maps.
  pub is_dead-sync : (t : Tag) → is_dead (sync caps m n) t ≡ (is_dead m t || is_dead n t)
  is_dead-sync t = rw sync-merge_dict (
      is_dead-merge_dict caps m (snapshot_dict n) m_valid snapshot-Fits t
      ∙ ap (◌||◌ (is_dead m t)) (remote_dead-snapshot n t))

  -- After a merge of another map's snapshot a key has under a tag the value that it has in one of the
  -- maps, this map first, unless the tag is dead in one of them.
  pub view-sync :
      (key : Text) (t : Tag)
      → view (sync caps m n) key t
        ≡ (if is_dead m t || is_dead n t then none else prefer (view m key t) (view n key t))
  view-sync key t = rw sync-merge_dict (
      view-merge_dict caps m (snapshot_dict n) m_valid snapshot-Fits key t
      ∙ ap
          (λ dead.
            if is_dead m t || dead
            then none
            else prefer (view m key t) (remote_view (snapshot_dict n) key t))
          (remote_dead-snapshot n t)
      ∙ ap (λ v. if is_dead m t || is_dead n t then none else prefer (view m key t) v)
          (remote_view-snapshot n key t))
