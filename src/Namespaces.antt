-- ===== src/Namespaces.antt =====
-- How python/propagul/mesh/config.py keeps several tables in one `ORMap`: a key is a prefix and a
-- name, and a table is read by a pass over the keys.
use propagul.Prelude.{
  ◌≡◌, refl, ap, false, Option, inl, inr, Option-cases, none, some, List, [], ◌∷◌, ◌++◌, arith,
  if◌then◌else◌, ite, Text, dec_text, ℕ_discrete,
}
use propagul.Prelude.Finite.{member}
use propagul.Prelude.Dict.{Dict, lookup, contains, insert, keys, lookup-insert, member-keys}
use propagul.Crdt.Defs.{OrMap, active_keys, get, winner}

-- `s[len(prefix):]` if `s.startswith(prefix)`
unfoldable pub strip_prefix : Text → Text → Option Text
strip_prefix [] s = some s
strip_prefix (c ∷ p) [] = none
strip_prefix (c ∷ p) (d ∷ s) = let rest = strip_prefix p s in ite (ℕ_discrete c d) rest none

-- the body of the pass: `val` is what the key reads as
unfoldable pub add_value : Option Text → Option Text → Dict Text → Dict Text
add_value (some name) (some val) result = insert name val result
add_value _ _ result = result

unfoldable pub collect : Text → OrMap → List Text → Dict Text → Dict Text
collect prefix m [] result = result
collect prefix m (key ∷ keys) result =
    collect prefix m keys (add_value (strip_prefix prefix key) (get m key) result)

-- the table under a prefix
unfoldable pub table : Text → OrMap → Dict Text
table prefix m = collect prefix m (active_keys m) []

pub strip_prefix-append : (p s : Text) → strip_prefix p (p ++ s) ≡ some s
unfolding strip_prefix
strip_prefix-append [] s = refl
strip_prefix-append (c ∷ p) s = ground (arith, strip_prefix-append p s)

pub append-strip_prefix : (p k s : Text) → strip_prefix p k ≡ some s → k ≡ p ++ s
unfolding strip_prefix
append-strip_prefix [] k s h = cc
append-strip_prefix (c ∷ p) [] s h = cc
append-strip_prefix (c ∷ p) (d ∷ k) s h = ground (arith, append-strip_prefix p k s)

-- the first that is there
unfoldable pub first_of : Option Text → Option Text → Option Text
first_of none o = o
first_of (some v) o = some v

lookup-add_value :
    (p x k : Text) (o : Option Text) (acc : Dict Text)
    → lookup x (add_value (strip_prefix p k) o acc)
      ≡ ite (dec_text k (p ++ x)) (first_of o (lookup x acc)) (lookup x acc)
unfolding add_value first_of
lookup-add_value p x k none acc = elim (Option-cases (strip_prefix p k)) [
  | inl h ↦ rw h (ground arith)
  | inr (name, h) ↦ rw h (ground arith)
]
lookup-add_value p x k (some v) acc = elim (Option-cases (strip_prefix p k)) [
  | inl h ↦ rw h (ground (arith, strip_prefix-append p x))
  | inr (name, h) ↦ rw h (
      ground (
        arith,
        lookup-insert name x v acc,
        append-strip_prefix p k name h,
        strip_prefix-append p x,
      ))
]

lookup-collect :
    (p x : Text) (m : OrMap) (ks : List Text) (acc : Dict Text)
    → lookup x (collect p m ks acc) ≡ (
        if member dec_text (p ++ x) ks
        then first_of (get m (p ++ x)) (lookup x acc)
        else lookup x acc)
unfolding collect member first_of
lookup-collect p x m [] acc = refl
lookup-collect p x m (k ∷ ks) acc = ground (
  arith,
  lookup-collect p x m ks (add_value (strip_prefix p k) (get m k) acc),
  lookup-add_value p x k (get m k) acc,
)

pub get_absent : (m : OrMap) (key : Text) → contains key m.entries ≡ false → get m key ≡ none
unfolding get winner contains
get_absent m key h = ground arith

-- A table has under a name what the map has at the prefix and the name.
pub lookup-table : (p x : Text) (m : OrMap) → lookup x (table p m) ≡ get m (p ++ x)
unfolding table first_of lookup
lookup-table p x m = ground (
  arith,
  lookup-collect p x m (active_keys m) [],
  member-keys (p ++ x) m.entries,
  get_absent m (p ++ x),
)

pub append_cancel : (p x y : Text) → p ++ x ≡ p ++ y → x ≡ y
append_cancel p x y h =
    ground (arith, strip_prefix-append p x, strip_prefix-append p y, ap (strip_prefix p) h)
