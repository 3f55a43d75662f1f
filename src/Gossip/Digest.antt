-- ===== src/Gossip/Digest.antt =====
-- python/propagul/gossip.py: digests, and the comparison of a tag with what a peer sent as one.
use propagul.Prelude.{
  ℕ, ◌+◌, ◌*◌, ◌^◌, Bool, true, false, Option, none, some, List, [], ◌∷◌, map, if◌then◌else◌, ite,
  ltb, Text, ℤ, pos, pos_part, neg_part, dec_int, ltb_ℤ, ℕ_discrete,
}
use propagul.Prelude.Dict.{Dict, lookup}
use propagul.Json.{Json, int, float, as_list}
use propagul.Crdt.Defs.{Tag, OrMap, entries_at, active_keys, winner}
use propagul.Crdt.Merge.{tag_json}

-- What Python returns, or the `TypeError` that it raises.
pub data Result {ℓ} (A : Type ℓ) : Type ℓ where
  ok : A → Result A
  type_error : Result A

infixl 5 ◌>>=◌
abbrev pub ◌>>=◌ {ℓ κ} : {A : Type ℓ} {B : Type κ} → Result A → (A → Result B) → Result B
ok a >>= f = f a
type_error >>= f = type_error

-- the loop of `build_digest`
unfoldable pub digest_loop : OrMap → List Text → Dict Tag
digest_loop m [] = []
digest_loop m (key ∷ ks) =
    let rest = digest_loop m ks in
    elim (winner (entries_at m key)) [ none ↦ rest | some e ↦ (key, e.tag) ∷ rest ]

unfoldable pub build_digest : OrMap → Dict Tag
build_digest m = digest_loop m (active_keys m)

-- `z < m / 2^k`, and the other way round
abbrev lt_float : ℤ → ℤ → ℕ → Bool
lt_float z m k = ltb (pos_part z * 2 ^ k + neg_part m) (pos_part m + neg_part z * 2 ^ k)

abbrev float_lt : ℤ → ℤ → ℕ → Bool
float_lt z m k = ltb (pos_part m + neg_part z * 2 ^ k) (pos_part z * 2 ^ k + neg_part m)

-- `z == j` of an int and any value
unfoldable pub eq_json : ℤ → Json → Bool
eq_json z (int w) = ite (dec_int z w) true false
eq_json z (Json.bool true) = ite (dec_int z (pos 1)) true false
eq_json z (Json.bool false) = ite (dec_int z (pos 0)) true false
eq_json z (float m k) =
    ite (ℕ_discrete (pos_part z * 2 ^ k + neg_part m) (pos_part m + neg_part z * 2 ^ k)) true false
eq_json z _ = false

-- `z < j`
unfoldable pub int_lt_json : ℤ → Json → Result Bool
int_lt_json z (int w) = ok (ltb_ℤ z w)
int_lt_json z (Json.bool true) = ok (ltb_ℤ z (pos 1))
int_lt_json z (Json.bool false) = ok (ltb_ℤ z (pos 0))
int_lt_json z (float m k) = ok (lt_float z m k)
int_lt_json z _ = type_error

-- `j < z`
unfoldable pub json_lt_int : Json → ℤ → Result Bool
json_lt_int (int w) z = ok (ltb_ℤ w z)
json_lt_int (Json.bool true) z = ok (ltb_ℤ (pos 1) z)
json_lt_int (Json.bool false) z = ok (ltb_ℤ (pos 0) z)
json_lt_int (float m k) z = ok (float_lt z m k)
json_lt_int _ z = type_error

-- `tuple(local_tag) < tuple(remote_tag)`: the first place where they differ decides
unfoldable pub tag_lt_json : Tag → Json × Json → Result Bool
tag_lt_json (n, s) (a, b) =
    if eq_json n a then (if eq_json s b then ok false else int_lt_json s b) else int_lt_json n a

-- `tuple(remote_tag) < tuple(local_tag)`
unfoldable pub json_lt_tag : Json × Json → Tag → Result Bool
json_lt_tag (a, b) (n, s) =
    if eq_json n a then (if eq_json s b then ok false else json_lt_int b s) else json_lt_int a n

-- `isinstance(remote_tag, list) and len(remote_tag) == 2`, with the two items
abbrev pair_of : List Json → Option (Json × Json)
pair_of (a ∷ b ∷ []) = some (a, b)
pair_of _ = none

unfoldable pub as_pair : Json → Option (Json × Json)
as_pair j = elim (as_list j) [ none ↦ none | some js ↦ pair_of js ]

-- what `local_tag is None or tuple(local_tag) < tuple(remote_tag)` says
unfoldable pub is_behind : Option Tag → Json × Json → Result Bool
is_behind none r = ok true
is_behind (some t) r = tag_lt_json t r

unfoldable pub cons_if : Bool → Text → List Text → List Text
cons_if true key ks = key ∷ ks
cons_if false key ks = ks

-- the first loop of `build_digest_response`: the keys that this node lacks
unfoldable pub missing_here : Dict Tag → Dict Json → Result (List Text)
missing_here mine [] = ok []
missing_here mine ((key, j) ∷ d) = elim (as_pair j) [
  | none ↦ missing_here mine d
  | some r ↦ do
    behind ← is_behind (lookup key mine) r
    rest ← missing_here mine d
    ok (cons_if behind key rest)
]

-- the test of the second loop: the peer has nothing usable for the key, or an older tag
unfoldable pub lacks : Option (Json × Json) → Tag → Result Bool
lacks none t = ok true
lacks (some r) t = json_lt_tag r t

abbrev pub usable : Option Json → Option (Json × Json)
usable none = none
usable (some j) = as_pair j

-- the second loop: the keys that the peer lacks
unfoldable pub missing_there : Dict Json → Dict Tag → Result (List Text)
missing_there theirs [] = ok []
missing_there theirs ((key, t) ∷ d) = do
  lacking ← lacks (usable (lookup key theirs)) t
  rest ← missing_there theirs d
  ok (cons_if lacking key rest)

-- a digest as it is sent
abbrev pub digest_json : Dict Tag → Dict Json
digest_json = map (λ p. (p.0, tag_json p.1))
