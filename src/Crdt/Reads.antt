-- ===== src/Crdt/Reads.antt =====
-- What `get` returns among concurrent values, and what `delta` counts.
use propagul.Prelude.{
  ℕ, ◌+◌, ◌≡◌, refl, Option, none, some, List, [], ◌∷◌, arith, Text, length, length-append, or_else,
  In,
}
use propagul.Prelude.Dict.{Dict, lookup, insert}
use propagul.Json.{Json, as_list}
use propagul.Crdt.Defs.{Caps, Tag, Entry, OrMap, entries_at, winner, get}
use propagul.Crdt.Order.{IsTop, winner_lem, winner-none}
use propagul.Crdt.Merge.{
  parse_entry, merge_entry, merge_parsed, merge_entries, merge_key, merge_keys,
}

-- what `get` may return: nothing where there is no entry, and else the value of an entry such that
-- no entry of the key has a greater tag
abbrev pub IsRead : List Entry → Option Text → Type 0
IsRead es none = es ≡ []
IsRead es (some v) = (e : Entry) × In e es × (e.value ≡ v) × IsTop e.tag es

-- A read is that of the entry with the greatest tag, and is nothing only where there is no entry.
pub get-IsRead : (m : OrMap) (key : Text) → IsRead (entries_at m key) (get m key)
unfolding get
get-IsRead m key = cases (winner (entries_at m key)) refl
  where
    cases :
        (o : Option Entry)
        → winner (entries_at m key) ≡ o
        → IsRead (entries_at m key) (elim o [ none ↦ none | some e ↦ some e.value ])
    cases none h = winner-none (entries_at m key) h
    cases (some e) h = let (here, top) = winner_lem (entries_at m key) e h in (e, here, refl, top)

-- the number of entries, over all keys
unfoldable pub total : Dict (List Entry) → ℕ
total [] = 0
total ((key, es) ∷ d) = length es + total d

total-insert :
    (key : Text) (es : List Entry) (d : Dict (List Entry))
    → total (insert key es d) + length (or_else (lookup key d) []) ≡ total d + length es
unfolding total insert lookup
total-insert key es [] = omega arith
total-insert key es ((k, fs) ∷ d) = ground (arith, total-insert key es d)

module _ (caps : Caps) (dead : List Tag) where
  delta-merge_parsed :
      (acc : List Entry × ℕ) (o : Option Entry)
      → length (merge_parsed caps dead acc o).0 + acc.1
        ≡ length acc.0 + (merge_parsed caps dead acc o).1
  unfolding merge_parsed merge_entry
  delta-merge_parsed (es, n) none = refl
  delta-merge_parsed (es, n) (some e) = ground (arith, length-append es (e ∷ []))

  delta-merge_entries :
      (acc : List Entry × ℕ) (js : List Json)
      → length (merge_entries caps dead acc js).0 + acc.1
        ≡ length acc.0 + (merge_entries caps dead acc js).1
  unfolding merge_entries
  delta-merge_entries acc [] = refl
  delta-merge_entries acc (j ∷ js) = omega (
    arith,
    delta-merge_parsed acc (parse_entry j),
    delta-merge_entries (merge_parsed caps dead acc (parse_entry j)) js,
  )

  delta-merge_key :
      (local : Dict (List Entry)) (n : ℕ) (key : Text) (o : Option (List Json))
      → total (merge_key caps dead (local, n) key o).0 + n
        ≡ total local + (merge_key caps dead (local, n) key o).1
  unfolding merge_key
  delta-merge_key local n key none = refl
  delta-merge_key local n key (some js) =
      let es = or_else (lookup key local) [] in
      ground (
        arith,
        delta-merge_entries (es, n) js,
        total-insert key (merge_entries caps dead (es, n) js).0 local,
      )

  -- `delta` counts the entries that step 1 of a merge adds, whatever the caps and the remote value.
  delta-merge_keys :
      (acc : Dict (List Entry) × ℕ) (d : Dict Json)
      → total (merge_keys caps dead acc d).0 + acc.1 ≡ total acc.0 + (merge_keys caps dead acc d).1
  unfolding merge_keys
  delta-merge_keys acc [] = refl
  delta-merge_keys acc ((key, j) ∷ d) = omega (
    arith,
    delta-merge_key acc.0 acc.1 key (as_list j),
    delta-merge_keys (merge_key caps dead acc key (as_list j)) d,
  )
