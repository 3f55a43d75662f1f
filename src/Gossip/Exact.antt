-- ===== src/Gossip/Exact.antt =====
-- The digest exchange finds exactly the keys whose greatest tag differs.
use propagul.Prelude.{
  ◌≡◌, refl, ap, ◌∙◌, Bool, true, false, Option, none, some, List, [], ◌∷◌, arith, if◌then◌else◌,
  ite, Text, dec_text,
}
use propagul.Prelude.Finite.{member, IsDistinct}
use propagul.Prelude.Dict.{Dict, lookup, keys, contains, member-keys}
use propagul.Json.{int, as_list-list}
use propagul.Crdt.Defs.{Caps, Tag, OrMap, entries_at, active_keys, winner, tag_lt}
use propagul.Crdt.Merge.{tag_json}
use propagul.Crdt.Invariant.{IsValid}
use propagul.Gossip.Digest.{
  ok, digest_loop, build_digest, eq_json, int_lt_json, json_lt_int, tag_lt_json, json_lt_tag,
  as_pair, is_behind, cons_if, missing_here, lacks, usable, missing_there, digest_json,
}

-- the greatest tag of a key
unfoldable pub best_tag : OrMap → Text → Option Tag
best_tag m key = elim (winner (entries_at m key)) [ none ↦ none | some e ↦ some e.tag ]

-- the second tag is there, and the first is not or is smaller
abbrev pub is_older : Option Tag → Option Tag → Bool
is_older o none = false
is_older none (some u) = true
is_older (some t) (some u) = tag_lt t u

lookup-digest_loop :
    (m : OrMap) (key : Text) (ks : List Text)
    → lookup key (digest_loop m ks) ≡ (if member dec_text key ks then best_tag m key else none)
unfolding digest_loop lookup member best_tag
lookup-digest_loop m key [] = refl
lookup-digest_loop m key (k ∷ ks) = ground (arith, lookup-digest_loop m key ks)

best_tag_absent : (m : OrMap) (key : Text) → contains key m.entries ≡ false → best_tag m key ≡ none
unfolding best_tag contains winner
best_tag_absent m key h = ground arith

-- A digest has for each key its greatest tag, and no other key.
pub lookup-build_digest : (m : OrMap) (key : Text) → lookup key (build_digest m) ≡ best_tag m key
unfolding build_digest
lookup-build_digest m key = ground (
  arith,
  lookup-digest_loop m key (active_keys m),
  member-keys key m.entries,
  best_tag_absent m key,
)

keys-digest_loop :
    (m : OrMap) (key : Text) (ks : List Text)
    → member dec_text key ks ≡ false
    → member dec_text key (keys (digest_loop m ks)) ≡ false
unfolding digest_loop member
keys-digest_loop m key [] h = refl
keys-digest_loop m key (k ∷ ks) h = ground (arith, keys-digest_loop m key ks)

digest_loop-IsDistinct :
    (m : OrMap) (ks : List Text)
    → IsDistinct dec_text ks
    → IsDistinct dec_text (keys (digest_loop m ks))
unfolding digest_loop
digest_loop-IsDistinct m [] h = tt
digest_loop-IsDistinct m (k ∷ ks) h =
    ground (arith, digest_loop-IsDistinct m ks, keys-digest_loop m k ks)

as_pair-tag_json : (t : Tag) → as_pair (tag_json t) ≡ some (int t.0, int t.1)
unfolding as_pair
as_pair-tag_json (n, s) = rw (as_list-list (int n ∷ int s ∷ []), as_pair)

tag_lt_json-int : (t u : Tag) → tag_lt_json t (int u.0, int u.1) ≡ ok (tag_lt t u)
unfolding tag_lt_json eq_json int_lt_json tag_lt
tag_lt_json-int (n, s) (a, b) = ground arith

json_lt_tag-int : (t u : Tag) → json_lt_tag (int u.0, int u.1) t ≡ ok (tag_lt u t)
unfolding json_lt_tag eq_json json_lt_int tag_lt
json_lt_tag-int (n, s) (a, b) = ground arith

-- the keys of one digest that are newer than in the other
pub newer : Dict Tag → Dict Tag → List Text
newer mine [] = []
newer mine ((key, t) ∷ d) = cons_if (is_older (lookup key mine) (some t)) key (newer mine d)

member-cons_if :
    (key k : Text) (b : Bool) (ks : List Text)
    → member dec_text key (cons_if b k ks)
      ≡ (if b then ite (dec_text k key) true (member dec_text key ks) else member dec_text key ks)
unfolding cons_if member
member-cons_if key k true ks = refl
member-cons_if key k false ks = refl

lookup_absent :
    (key : Text) (d : Dict Tag) → member dec_text key (keys d) ≡ false → lookup key d ≡ none
unfolding contains
lookup_absent key d h = ground (arith, member-keys key d)

member-newer :
    (key : Text) (mine d : Dict Tag)
    → IsDistinct dec_text (keys d)
    → member dec_text key (newer mine d) ≡ is_older (lookup key mine) (lookup key d)
unfolding newer member lookup
member-newer key mine [] h = refl
member-newer key mine ((k, t) ∷ d) h = ground (
  arith,
  member-newer key mine d h.1,
  member-cons_if key k (is_older (lookup k mine) (some t)) (newer mine d),
  lookup_absent k d h.0,
)

is_behind-tag :
    (o : Option Tag) (t : Tag) → is_behind o (int t.0, int t.1) ≡ ok (is_older o (some t))
unfolding is_behind
is_behind-tag none t = refl
is_behind-tag (some u) t = tag_lt_json-int u t

pub missing_here-newer : (mine d : Dict Tag) → missing_here mine (digest_json d) ≡ ok (newer mine d)
unfolding missing_here newer
missing_here-newer mine [] = refl
missing_here-newer mine ((key, t) ∷ d) =
    ground (arith, as_pair-tag_json t, is_behind-tag (lookup key mine) t, missing_here-newer mine d)

usable-digest_json :
    (key : Text) (d : Dict Tag)
    → usable (lookup key (digest_json d))
      ≡ elim (lookup key d) [ none ↦ none | some t ↦ some (int t.0, int t.1) ]
unfolding lookup
usable-digest_json key [] = refl
usable-digest_json key ((k, t) ∷ d) = ground (arith, usable-digest_json key d, as_pair-tag_json t)

lacks-tag :
    (o : Option Tag) (t : Tag)
    → lacks (elim o [ none ↦ none | some u ↦ some (int u.0, int u.1) ]) t ≡ ok (is_older o (some t))
unfolding lacks
lacks-tag none t = refl
lacks-tag (some u) t = json_lt_tag-int t u

pub missing_there-newer :
    (theirs d : Dict Tag) → missing_there (digest_json theirs) d ≡ ok (newer theirs d)
unfolding missing_there newer
missing_there-newer theirs [] = refl
missing_there-newer theirs ((key, t) ∷ d) = ground (
  arith,
  usable-digest_json key theirs,
  lacks-tag (lookup key theirs) t,
  missing_there-newer theirs d,
)

-- What a node answers to the digest of another: it asks for exactly the keys whose greatest tag is
-- greater at the other node, and offers exactly those whose greatest tag is greater here. Nothing
-- raises.
pub digest_exchange :
    (caps : Caps) (m n : OrMap)
    → IsValid caps m
    → IsValid caps n
    → (wants : List Text) × (needs : List Text) × (missing_here
          (build_digest m)
          (digest_json (build_digest n))
        ≡ ok wants)
      × (missing_there (digest_json (build_digest n)) (build_digest m) ≡ ok needs)
      × ((key : Text) → member dec_text key wants ≡ is_older (best_tag m key) (best_tag n key))
      × ((key : Text) → member dec_text key needs ≡ is_older (best_tag n key) (best_tag m key))
digest_exchange caps m n vm vn = (
  newer (build_digest m) (build_digest n),
  newer (build_digest n) (build_digest m),
  missing_here-newer (build_digest m) (build_digest n),
  missing_there-newer (build_digest n) (build_digest m),
  (λ key. exact m n vn key),
  (λ key. exact n m vm key),
)
  where
    exact :
        (a b : OrMap)
        → IsValid caps b
        → (key : Text)
        → member dec_text key (newer (build_digest a) (build_digest b))
          ≡ is_older (best_tag a key) (best_tag b key)
    exact a b v key =
        member-newer key (build_digest a) (build_digest b)
          (unfold build_digest in digest_loop-IsDistinct b (active_keys b) v.distinct_keys)
        ∙ ap (λ o. is_older o (lookup key (build_digest b))) (lookup-build_digest a key)
        ∙ ap (is_older (best_tag a key)) (lookup-build_digest b key)
