-- ===== src/Crdt/View/Remote.antt =====
-- What a remote snapshot says: its valid entries and its valid tombstones.
use propagul.Prelude.{
  Option, none, some, List, [], ◌∷◌, Text, codes, keep, ite, ◌≡◌, refl, ◌++◌, arith, ◌+◌, ◌≤◌,
  length, true, false, if◌then◌else◌, leb, ◌||◌,
}
use propagul.Prelude.Dict.{Dict}
use propagul.Prelude.Finite.{member, add, member-add, length-add-le}
use propagul.Json.{Json}
use propagul.Crdt.Defs.{Caps, Tag, dec_tag, Entry, tags}
use propagul.Crdt.Merge.{
  parse_entry, parse_tag, get_field, dict_or_empty, list_or_empty, add_parsed, absorb, live,
}

-- The value that a list of entries has under a tag.
unfoldable pub value_of : Tag → List Entry → Option Text
value_of t [] = none
value_of t (e ∷ es) = ite (dec_tag e.tag t) (some e.value) (value_of t es)

-- The first of two values that is there.
abbrev pub prefer : Option Text → Option Text → Option Text
prefer none w = w
prefer (some v) w = some v

unfoldable pub cons_parsed {ℓ} : {A : Type ℓ} → Option A → List A → List A
cons_parsed none xs = xs
cons_parsed (some x) xs = x ∷ xs

unfoldable pub parsed_entries : List Json → List Entry
parsed_entries [] = []
parsed_entries (j ∷ js) = cons_parsed (parse_entry j) (parsed_entries js)

unfoldable pub parsed_tags : List Json → List Tag
parsed_tags [] = []
parsed_tags (j ∷ js) = cons_parsed (parse_tag j) (parsed_tags js)

-- the two fields of a snapshot
abbrev pub remote_entries : Dict Json → Dict Json
remote_entries d = dict_or_empty (get_field (codes "entries") d)

abbrev pub remote_tombstones : Dict Json → List Json
remote_tombstones d = list_or_empty (get_field (codes "tombstones") d)

abbrev pub remote_at : Dict Json → Text → List Json
remote_at r key = list_or_empty (get_field key r)

pub value_of-snoc :
    (t : Tag) (es : List Entry) (e : Entry)
    → value_of t (es ++ e ∷ []) ≡ prefer (value_of t es) (ite (dec_tag e.tag t) (some e.value) none)
unfolding value_of
value_of-snoc t [] e = refl
value_of-snoc t (x ∷ es) e = ground (arith, value_of-snoc t es e)

pub value_of-member :
    (t : Tag) (es : List Entry)
    → member dec_tag t (tags es) ≡ elim (value_of t es) [ none ↦ false | some v ↦ true ]
unfolding value_of member
value_of-member t [] = refl
value_of-member t (e ∷ es) = ground (arith, value_of-member t es)

pub value_of-live :
    (dead : List Tag) (t : Tag) (es : List Entry)
    → value_of t (live dead es) ≡ (if member dec_tag t dead then none else value_of t es)
unfolding value_of live keep
value_of-live dead t [] = ground arith
value_of-live dead t (e ∷ es) = ground (arith, value_of-live dead t es)

-- With room for them all, the tombstones are joined.
pub member-absorb :
    (caps : Caps) (t : Tag) (dead : List Tag) (js : List Json)
    → length dead + length js ≤ caps.max_tombstones
    → member dec_tag t (absorb caps dead js)
      ≡ (member dec_tag t dead || member dec_tag t (parsed_tags js))
unfolding absorb add_parsed parsed_tags cons_parsed member
member-absorb caps t dead [] h = ground arith
member-absorb caps t dead (j ∷ js) h = step (parse_tag j) (λ s p. member-absorb caps t s js p)
  where
    step :
        (o : Option Tag)
        → ((s : List Tag)
            → length s + length js ≤ caps.max_tombstones
            → member dec_tag t (absorb caps s js)
              ≡ (member dec_tag t s || member dec_tag t (parsed_tags js)))
        → member dec_tag t (
            if leb caps.max_tombstones (length dead)
            then dead
            else absorb caps (add_parsed dead o) js)
          ≡ (member dec_tag t dead || member dec_tag t (cons_parsed o (parsed_tags js)))
    step none ih = ground (arith, ih dead)
    step (some u) ih =
        ground (
          arith,
          ih (add dec_tag u dead),
          member-add dec_tag u t dead,
          length-add-le dec_tag u dead,
        )
