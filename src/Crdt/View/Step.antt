-- ===== src/Crdt/View/Step.antt =====
-- Step 1 of a merge, seen through tags.
use propagul.Prelude.{
  Option, none, some, List, [], ◌∷◌, Text, ite, ◌≡◌, ◌≢◌, refl, arith, ◌+◌, ◌≤◌, length,
  if◌then◌else◌, ℕ, length-append, or_else, dec_text,
}
use propagul.Prelude.Dict.{Dict, lookup, lookup-insert, length-insert}
use propagul.Prelude.Finite.{member}
use propagul.Json.{Json}
use propagul.Crdt.Defs.{Caps, Tag, dec_tag, Entry}
use propagul.Crdt.Merge.{parse_entry, merge_entry, merge_parsed, merge_entries, merge_key}
use propagul.Crdt.View.Remote.{
  value_of, prefer, cons_parsed, parsed_entries, value_of-snoc, value_of-member,
}

abbrev pub here : Text → Dict (List Entry) → List Entry
here key local = or_else (lookup key local) []

module _ (caps : Caps) (dead : List Tag) where
  -- a remote value under a tag, unless the tag is dead here
  abbrev pub admitted : Tag → Option Text → Option Text
  admitted t v = if member dec_tag t dead then none else v

  value_of-merge_parsed :
      (t : Tag) (es : List Entry) (n : ℕ) (o : Option Entry)
      → length es + 1 ≤ caps.max_entries_per_key
      → value_of t (merge_parsed caps dead (es, n) o).0
        ≡ prefer (value_of t es) (admitted t (value_of t (cons_parsed o [])))
  unfolding merge_parsed merge_entry value_of cons_parsed
  value_of-merge_parsed t es n none h = ground arith
  value_of-merge_parsed t es n (some e) h =
      ground (arith, value_of-snoc t es e, value_of-member e.tag es)

  length-merge_parsed-le :
      (es : List Entry) (n : ℕ) (o : Option Entry)
      → length (merge_parsed caps dead (es, n) o).0 ≤ length es + 1
  unfolding merge_parsed merge_entry
  length-merge_parsed-le es n none = omega arith
  length-merge_parsed-le es n (some e) = ground (arith, length-append es (e ∷ []))

  value_of-cons_parsed :
      (t : Tag) (o : Option Entry) (es : List Entry)
      → value_of t (cons_parsed o es) ≡ prefer (value_of t (cons_parsed o [])) (value_of t es)
  unfolding value_of cons_parsed
  value_of-cons_parsed t none es = refl
  value_of-cons_parsed t (some e) es = ground arith

  -- With room for them all, the valid remote entries whose tag is not dead are joined.
  pub value_of-merge_entries :
      (t : Tag) (es : List Entry) (n : ℕ) (js : List Json)
      → length es + length js ≤ caps.max_entries_per_key
      → value_of t (merge_entries caps dead (es, n) js).0
        ≡ prefer (value_of t es) (admitted t (value_of t (parsed_entries js)))
  unfolding merge_entries parsed_entries value_of
  value_of-merge_entries t es n [] h = ground arith
  value_of-merge_entries t es n (j ∷ js) h =
      let next = merge_parsed caps dead (es, n) (parse_entry j) in
      ground (
        arith,
        value_of-merge_entries t next.0 next.1 js,
        value_of-merge_parsed t es n (parse_entry j),
        length-merge_parsed-le es n (parse_entry j),
        value_of-cons_parsed t (parse_entry j) (parsed_entries js),
      )

  length-merge_entries-le :
      (es : List Entry) (n : ℕ) (js : List Json)
      → length (merge_entries caps dead (es, n) js).0 ≤ length es + length js
  unfolding merge_entries
  length-merge_entries-le es n [] = omega arith
  length-merge_entries-le es n (j ∷ js) =
      let next = merge_parsed caps dead (es, n) (parse_entry j) in
      omega (
        arith,
        length-merge_entries-le next.0 next.1 js,
        length-merge_parsed-le es n (parse_entry j),
      )

  -- One remote key: only its own entries change.
  pub value_of-merge_key :
      (t : Tag) (k : Text) (local : Dict (List Entry)) (n : ℕ) (key : Text) (o : Option (List Json))
      → length local + 1 ≤ caps.max_keys
      → length (here key local) + length (or_else o []) ≤ caps.max_entries_per_key
      → value_of t (here k (merge_key caps dead (local, n) key o).0)
        ≡ ite
            (dec_text key k)
            (prefer
              (value_of t (here k local))
              (admitted t (value_of t (parsed_entries (or_else o [])))))
            (value_of t (here k local))
  unfolding merge_key parsed_entries value_of
  value_of-merge_key t k local n key none room fits = ground arith
  value_of-merge_key t k local n key (some js) room fits =
      let es = (merge_entries caps dead (here key local, n) js).0 in
      ground (arith, lookup-insert key k es local, value_of-merge_entries t (here key local) n js)

  pub length-merge_key-le :
      (local : Dict (List Entry)) (n : ℕ) (key : Text) (o : Option (List Json))
      → length (merge_key caps dead (local, n) key o).0 ≤ length local + 1
  unfolding merge_key
  length-merge_key-le local n key none = omega arith
  length-merge_key-le local n key (some js) =
      ground (arith, length-insert key (merge_entries caps dead (here key local, n) js).0 local)

  -- Another key's entries are as many as before.
  pub here-merge_key :
      (k : Text) (local : Dict (List Entry)) (n : ℕ) (key : Text) (o : Option (List Json))
      → key ≢ k
      → here k (merge_key caps dead (local, n) key o).0 ≡ here k local
  unfolding merge_key
  here-merge_key k local n key none ne = refl
  here-merge_key k local n key (some js) ne =
      ground (arith, lookup-insert key k (merge_entries caps dead (here key local, n) js).0 local)

  pub length-here-merge_key-le :
      (k : Text) (local : Dict (List Entry)) (n : ℕ) (key : Text) (o : Option (List Json))
      → key ≡ k
      → length (here k (merge_key caps dead (local, n) key o).0)
        ≤ length (here k local) + length (or_else o [])
  unfolding merge_key
  length-here-merge_key-le k local n key none p = omega arith
  length-here-merge_key-le k local n key (some js) p =
      let es = (merge_entries caps dead (here key local, n) js).0 in
      ground (arith, lookup-insert key k es local, length-merge_entries-le (here key local) n js)
