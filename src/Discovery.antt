-- ===== src/Discovery.antt =====
-- python/propagul/discovery.py and `PeerAddress` of python/propagul/types.py.
pub mod Laws
use propagul.Prelude.{
  Bool, Option, none, some, List, [], ◌∷◌, ◌++◌, if◌then◌else◌, ite, not, Text, dec_text, ℤ,
  dec_int, ap, ℕ, length, keep,
}
use propagul.Prelude.Finite.{member}

-- `PeerAddress`: host and port, equal if both are
abbrev pub PeerAddress : Type 0
PeerAddress = Text × ℤ

unfoldable pub dec_peer : Discrete PeerAddress
unfolding dec_text dec_int
dec_peer p q = elim (dec_text p.0 q.0) [
  | yes e ↦ elim (dec_int p.1 q.1) [
    | yes f ↦ yes (λ i. (e i, f i))
    | no f ↦ no (λ e'. f (ap (λ (r : PeerAddress). r.1) e'))
  ]
  | no e ↦ no (λ e'. e (ap (λ (r : PeerAddress). r.0) e'))
]

-- `add_peer`
unfoldable pub add_peer : PeerAddress → List PeerAddress → List PeerAddress
add_peer p peers = if member dec_peer p peers then peers else peers ++ p ∷ []

-- `list.remove`: the first item that is equal
unfoldable pub remove_first : PeerAddress → List PeerAddress → List PeerAddress
remove_first p [] = []
remove_first p (q ∷ qs) = let rest = remove_first p qs in ite (dec_peer q p) qs (q ∷ rest)

unfoldable pub remove_peer : PeerAddress → List PeerAddress → List PeerAddress
remove_peer p peers = if member dec_peer p peers then remove_first p peers else peers

-- `p != exclude`
abbrev pub is_other : PeerAddress → PeerAddress → Bool
is_other exclude p = not (ite (dec_peer p exclude) Bool.true Bool.false)

unfoldable pub get_peers : Option PeerAddress → List PeerAddress → List PeerAddress
get_peers none peers = peers
get_peers (some exclude) peers = keep (is_other exclude) peers

abbrev pub peer_count : List PeerAddress → ℕ
peer_count = length
