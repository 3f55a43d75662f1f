-- ===== src/Discovery/Laws.antt =====
-- The peer list is a set that keeps the order in which peers were found.
use propagul.Prelude.{
  ◌≡◌, ap, ◌∙◌, refl, Bool, true, false, some, List, [], ◌∷◌, arith, if◌then◌else◌, ite,
}
use propagul.Prelude.Finite.{member, IsDistinct, member-append, snoc-IsDistinct, member-keep}
use propagul.Discovery.{
  PeerAddress, dec_peer, add_peer, remove_first, remove_peer, is_other, get_peers,
}

-- the calls that change the list
pub data Call : Type 0 where
  add remove : PeerAddress → Call

unfoldable pub apply : Call → List PeerAddress → List PeerAddress
apply (add p) peers = add_peer p peers
apply (remove p) peers = remove_peer p peers

unfoldable pub run : List Call → List PeerAddress → List PeerAddress
run [] peers = peers
run (c ∷ cs) peers = run cs (apply c peers)

member-add_peer :
    (p q : PeerAddress) (peers : List PeerAddress)
    → member dec_peer q (add_peer p peers) ≡ ite (dec_peer p q) true (member dec_peer q peers)
unfolding add_peer member
member-add_peer p q peers = ground (arith, member-append dec_peer q peers (p ∷ []))

add_peer-IsDistinct :
    (p : PeerAddress) (peers : List PeerAddress)
    → IsDistinct dec_peer peers
    → IsDistinct dec_peer (add_peer p peers)
unfolding add_peer
add_peer-IsDistinct p peers d = ground (arith, snoc-IsDistinct dec_peer p peers)

member-remove_first :
    (p q : PeerAddress) (peers : List PeerAddress)
    → IsDistinct dec_peer peers
    → member dec_peer q (remove_first p peers) ≡ ite (dec_peer p q) false (member dec_peer q peers)
unfolding remove_first member
member-remove_first p q [] d = ground arith
member-remove_first p q (x ∷ xs) d = ground (arith, member-remove_first p q xs d.1)

remove_first-IsDistinct :
    (p : PeerAddress) (peers : List PeerAddress)
    → IsDistinct dec_peer peers
    → IsDistinct dec_peer (remove_first p peers)
unfolding remove_first
remove_first-IsDistinct p [] d = tt
remove_first-IsDistinct p (x ∷ xs) d =
    ground (arith, remove_first-IsDistinct p xs, member-remove_first p x xs)

member-remove_peer :
    (p q : PeerAddress) (peers : List PeerAddress)
    → IsDistinct dec_peer peers
    → member dec_peer q (remove_peer p peers) ≡ ite (dec_peer p q) false (member dec_peer q peers)
unfolding remove_peer
member-remove_peer p q peers d = ground (arith, member-remove_first p q peers d)

apply-IsDistinct :
    (c : Call) (peers : List PeerAddress)
    → IsDistinct dec_peer peers
    → IsDistinct dec_peer (apply c peers)
unfolding apply remove_peer
apply-IsDistinct (add p) peers d = add_peer-IsDistinct p peers d
apply-IsDistinct (remove p) peers d = ground (arith, remove_first-IsDistinct p peers d)

-- what the last call about `q` says, and what held before if none is about `q`
unfoldable pub known : PeerAddress → Bool → List Call → Bool
known q before [] = before
known q before (add p ∷ cs) = known q (ite (dec_peer p q) true before) cs
known q before (remove p ∷ cs) = known q (ite (dec_peer p q) false before) cs

-- After any calls on a list without repetitions there are none, and a peer is in the list exactly if
-- the last call about it added it, or if there was none and it was there before.
run-known :
    (cs : List Call) (peers : List PeerAddress)
    → IsDistinct dec_peer peers
    → IsDistinct dec_peer (run cs peers)
      × ((q : PeerAddress)
          → member dec_peer q (run cs peers) ≡ known q (member dec_peer q peers) cs)
unfolding run known apply
run-known [] peers d = (d, λ q. refl)
run-known (c ∷ cs) peers d =
    let rest = run-known cs (apply c peers) (apply-IsDistinct c peers d) in
    (rest.0, λ q. rest.1 q ∙ after c q)
  where
    after :
        (c : Call) (q : PeerAddress)
        → known q (member dec_peer q (apply c peers)) cs
          ≡ known q (member dec_peer q peers) (c ∷ cs)
    after (add p) q = ap (λ b. known q b cs) (member-add_peer p q peers)
    after (remove p) q = ap (λ b. known q b cs) (member-remove_peer p q peers d)

-- The peers that a node gossips with are those that it knows, less the excluded one, in their order.
pub member-get_peers :
    (exclude q : PeerAddress) (peers : List PeerAddress)
    → member dec_peer q (get_peers (some exclude) peers)
      ≡ (if ite (dec_peer q exclude) true false then false else member dec_peer q peers)
unfolding get_peers
member-get_peers exclude q peers = ground (arith, member-keep dec_peer (is_other exclude) q peers)
