-- ===== src/Crdt/Invariant/Merging.antt =====
-- `merge` keeps the invariant, whatever the remote value holds.
use mathlib.Core.List.{map-append}
use propagul.Prelude.{
  ℕ, ◌≤◌, ◌≡◌, sym, subst, refl, Bool, false, ◌&&◌, not, Option, none, some, List, [], ◌∷◌, arith,
  Bool-cases, Option-cases, inl, inr, ltb, leb, Text, codes, dec_text, length, length-append, keep,
  length-keep-le, or_else,
}
use propagul.Prelude.Finite.{
  member, IsDistinct, add-IsDistinct, length-add-le, snoc-IsDistinct, keep-IsDistinct,
}
use propagul.Prelude.Dict.{
  Dict, lookup, contains, keys, length-insert, insert-IsDistinct, AllValues, AllValues-lookup,
  AllValues-insert,
}
use propagul.Json.{Json, as_dict, as_list}
use propagul.Crdt.Defs.{Caps, Tag, dec_tag, Entry, OrMap, tags}
use propagul.Crdt.Merge.{
  merge_entry, merge_parsed, add_parsed, merge_entries, merge_key, merge_keys, parse_entry,
  parse_tag, absorb, live, prune, merge_dict, merge_checked, merge, dict_or_empty, list_or_empty,
  get_field,
}
use propagul.Crdt.Eviction.{gc-IsDistinct}
use propagul.Crdt.Invariant.{IsFit, IsHeld, IsValid, length-gc-le}

module _ (caps : Caps) (dead : List Tag) where
  merge_entry-IsFit :
      (here : List Entry) (delta : ℕ) (e : Entry)
      → IsFit caps here
      → IsFit caps (merge_entry caps dead (here, delta) e).0
  unfolding merge_entry
  merge_entry-IsFit here delta e fit = elim (Bool-cases takes) [
    | inl new ↦ rw new (record {
      few = ground (arith, length-append here (e ∷ []), fit.few);
      distinct =
          subst (IsDistinct dec_tag) (sym (map-append (λ (x : Entry). x.tag) here (e ∷ [])))
            (snoc-IsDistinct dec_tag e.tag (tags here) (ground arith) fit.distinct);
    })
    | inr old ↦ rw old fit
  ]
    where
      takes : Bool
      takes =
          not (member dec_tag e.tag dead)
          && not (member dec_tag e.tag (tags here))
          && ltb (length here) caps.max_entries_per_key

  merge_parsed-IsFit :
      (here : List Entry) (delta : ℕ) (o : Option Entry)
      → IsFit caps here
      → IsFit caps (merge_parsed caps dead (here, delta) o).0
  unfolding merge_parsed
  merge_parsed-IsFit here delta none fit = fit
  merge_parsed-IsFit here delta (some e) fit = merge_entry-IsFit here delta e fit

  merge_entries-IsFit :
      (acc : List Entry × ℕ) (js : List Json)
      → IsFit caps acc.0
      → IsFit caps (merge_entries caps dead acc js).0
  unfolding merge_entries
  merge_entries-IsFit acc [] fit = fit
  merge_entries-IsFit acc (j ∷ js) fit =
      merge_entries-IsFit (merge_parsed caps dead acc (parse_entry j)) js
        (merge_parsed-IsFit acc.0 acc.1 (parse_entry j) fit)

  -- What step 1 keeps of the invariant: a key may have no entry for a while.
  pub record IsOpen (d : Dict (List Entry)) : Type 0 where
    pub few_keys : length d ≤ caps.max_keys
    pub distinct_keys : IsDistinct dec_text (keys d)
    pub at_key : AllValues (IsFit caps) d

  at_key-IsFit :
      (local : Dict (List Entry)) (key : Text)
      → IsOpen local
      → IsFit caps (or_else (lookup key local) [])
  at_key-IsFit local key h = elim (Option-cases (lookup key local)) [
    | inl out ↦ rw out (record { few = omega arith; distinct = tt })
    | inr (es, there) ↦ rw there (AllValues-lookup (IsFit caps) key es local h.at_key there)
  ]

  merge_key-IsOpen :
      (local : Dict (List Entry)) (delta : ℕ) (key : Text) (o : Option (List Json))
      → IsOpen local
      → IsOpen (merge_key caps dead (local, delta) key o).0
  unfolding merge_key
  merge_key-IsOpen local delta key none h = h
  merge_key-IsOpen local delta key (some js) h =
      let here = (merge_entries caps dead (or_else (lookup key local) [], delta) js).0 in
      elim (Bool-cases (not (contains key local) && leb caps.max_keys (length local))) [
        | inl full ↦ rw full h
        | inr free ↦ rw free (record {
          few_keys = ground (arith, length-insert key here local, h.few_keys);
          distinct_keys = insert-IsDistinct key here local h.distinct_keys;
          at_key =
              AllValues-insert (IsFit caps) key here local
                (merge_entries-IsFit (or_else (lookup key local) [], delta) js
                  (at_key-IsFit local key h))
                h.at_key;
        })
      ]

  pub merge_keys-IsOpen :
      (acc : Dict (List Entry) × ℕ) (d : Dict Json)
      → IsOpen acc.0
      → IsOpen (merge_keys caps dead acc d).0
  unfolding merge_keys
  merge_keys-IsOpen acc [] h = h
  merge_keys-IsOpen acc ((key, j) ∷ d) h =
      merge_keys-IsOpen (merge_key caps dead acc key (as_list j)) d
        (merge_key-IsOpen acc.0 acc.1 key (as_list j) h)

  pub tags-live :
      (es : List Entry) → tags (live dead es) ≡ keep (λ t. not (member dec_tag t dead)) (tags es)
  unfolding live keep
  tags-live [] = refl
  tags-live (e ∷ es) = ground (arith, tags-live es)

  live-IsFit : (es : List Entry) → IsFit caps es → IsFit caps (live dead es)
  unfolding live
  live-IsFit es fit = record {
    few =
        omega (arith, length-keep-le (λ (e : Entry). not (member dec_tag e.tag dead)) es, fit.few);
    distinct =
        rw (tags-live es)
          (keep-IsDistinct dec_tag (λ t. not (member dec_tag t dead)) (tags es) fit.distinct);
  }

  keys-prune :
      (k : Text) (d : Dict (List Entry))
      → member dec_text k (keys d) ≡ false
      → member dec_text k (keys (prune dead d)) ≡ false
  unfolding prune member
  keys-prune k [] h = refl
  keys-prune k ((j, es) ∷ d) h = ground (arith, keys-prune k d)

  prune-IsDistinct :
      (d : Dict (List Entry))
      → IsDistinct dec_text (keys d)
      → IsDistinct dec_text (keys (prune dead d))
  unfolding prune
  prune-IsDistinct [] h = tt
  prune-IsDistinct ((j, es) ∷ d) h = ground (arith, keys-prune j d, prune-IsDistinct d)

  length-prune-le : (d : Dict (List Entry)) → length (prune dead d) ≤ length d
  unfolding prune
  length-prune-le [] = omega arith
  length-prune-le ((j, es) ∷ d) = ground (arith, length-prune-le d)

  prune-IsHeld :
      (d : Dict (List Entry)) → AllValues (IsFit caps) d → AllValues (IsHeld caps) (prune dead d)
  unfolding prune
  prune-IsHeld [] h = tt
  prune-IsHeld ((j, es) ∷ d) h = add_held j (live dead es) (live-IsFit es h.0) (prune-IsHeld d h.1)
    where
      add_held :
          (j : Text) (es : List Entry)
          → IsFit caps es
          → AllValues (IsHeld caps) (prune dead d)
          → AllValues
              (IsHeld caps)
              (elim es [ [] ↦ prune dead d | e ∷ es' ↦ (j, e ∷ es') ∷ prune dead d ])
      add_held j [] fit rest = rest
      add_held j (e ∷ es) fit rest = (record { fit = fit; held = λ p. cc }, rest)

IsHeld-IsFit :
    (caps : Caps) (d : Dict (List Entry)) → AllValues (IsHeld caps) d → AllValues (IsFit caps) d
IsHeld-IsFit caps [] h = tt
IsHeld-IsFit caps ((k, es) ∷ d) h = (h.0.fit, IsHeld-IsFit caps d h.1)

module _ (caps : Caps) where
  IsValid-IsOpen : (m : OrMap) (v : IsValid caps m) → IsOpen caps m.tombstones m.entries
  IsValid-IsOpen m v = record {
    few_keys = v.few_keys;
    distinct_keys = v.distinct_keys;
    at_key = IsHeld-IsFit caps m.entries v.at_key;
  }

  pub absorb-keeps :
      (dead : List Tag) (js : List Json)
      → IsDistinct dec_tag dead
      → length dead ≤ caps.max_tombstones
      → IsDistinct dec_tag (absorb caps dead js)
        × (length (absorb caps dead js) ≤ caps.max_tombstones)
  unfolding absorb add_parsed
  absorb-keeps dead [] d h = (d, h)
  absorb-keeps dead (j ∷ js) d h = elim (Bool-cases (leb caps.max_tombstones (length dead))) [
    | inl full ↦ rw full (d, h)
    | inr free ↦ rw free (
        absorb-keeps (add_parsed dead (parse_tag j)) js (add_parsed-IsDistinct dead (parse_tag j) d)
          (room_left dead (parse_tag j) free))
  ]
    where
      add_parsed-IsDistinct :
          (s : List Tag) (o : Option Tag)
          → IsDistinct dec_tag s
          → IsDistinct dec_tag (add_parsed s o)
      add_parsed-IsDistinct s none h = h
      add_parsed-IsDistinct s (some t) h = add-IsDistinct dec_tag t s h

      room_left :
          (s : List Tag) (o : Option Tag)
          → leb caps.max_tombstones (length s) ≡ false
          → length (add_parsed s o) ≤ caps.max_tombstones
      room_left s none h = ground arith
      room_left s (some t) h = ground (arith, length-add-le dec_tag t s)

  merge_dict-IsValid :
      (m : OrMap) (d : Dict Json) → IsValid caps m → IsValid caps (merge_dict caps m d).0
  unfolding merge_dict
  merge_dict-IsValid m d v =
      let remote = dict_or_empty (get_field (codes "entries") d) in
      let dead = absorb caps m.tombstones (list_or_empty (get_field (codes "tombstones") d)) in
      let kept =
        absorb-keeps m.tombstones (list_or_empty (get_field (codes "tombstones") d))
          v.distinct_tombstones v.few_tombstones in
      let open' = merge_keys-IsOpen caps m.tombstones (m.entries, 0) remote (IsValid-IsOpen m v) in
      let local = (merge_keys caps m.tombstones (m.entries, 0) remote).0 in
      record {
        few_keys = omega (arith, length-prune-le caps dead local, open'.few_keys);
        distinct_keys = prune-IsDistinct caps dead local open'.distinct_keys;
        few_tombstones = length-gc-le caps dead kept.0;
        distinct_tombstones = gc-IsDistinct caps dead kept.0;
        at_key = prune-IsHeld caps dead local open'.at_key;
      }

  merge_checked-IsValid :
      (m : OrMap) (o : Option (Dict Json))
      → IsValid caps m
      → IsValid caps (merge_checked caps m o).0
  unfolding merge_checked
  merge_checked-IsValid m none v = v
  merge_checked-IsValid m (some d) v = merge_dict-IsValid m d v

  -- A merge keeps the invariant, whatever the remote value is.
  pub merge-IsValid : (m : OrMap) (j : Json) → IsValid caps m → IsValid caps (merge caps m j).0
  unfolding merge
  merge-IsValid m j v = merge_checked-IsValid m (as_dict j) v

  pub merge_keys-IsDistinct :
      (m : OrMap) (d : Dict Json)
      → IsValid caps m
      → IsDistinct dec_text (keys (merge_keys caps m.tombstones (m.entries, 0) d).0)
  merge_keys-IsDistinct m d v =
      (merge_keys-IsOpen caps m.tombstones (m.entries, 0) d (IsValid-IsOpen m v)).distinct_keys
