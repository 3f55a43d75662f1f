-- ===== src/Transport/Replaced.antt =====
-- What two calls that open a connection to the same peer leave.
use propagul.Prelude.{◌+◌, ◌<◌, ◌≡◌, refl, some, [], ◌∷◌, arith, ite, length}
use propagul.Discovery.{PeerAddress, dec_peer}
use propagul.Transport.Pool.{Connection, Pool, find, put, pool_max_size, Transport, put_connection}
use propagul.Transport.Bounded.{length-put-le}

find-put :
    (p q : PeerAddress) (c : Connection) (pool : Pool)
    → find q (put p c pool) ≡ ite (dec_peer p q) (some c) (find q pool)
unfolding find put
find-put p q c [] = refl
find-put p q c ((r, d) ∷ pool) = ground (arith, find-put p q c pool)

-- Two calls that find no connection to a peer both open one. Where the pool has room for two more, the
-- second replaces the first in the pool, nothing is closed, and other peers keep their connections.
pub put_connection-replaces :
    (peer q : PeerAddress) (c d : Connection) (t : Transport)
    → length t.pool + 1 < pool_max_size
    → let u = put_connection peer d (put_connection peer c t) in
      (find q u.pool ≡ ite (dec_peer peer q) (some d) (find q t.pool)) × (u.closed ≡ t.closed)
unfolding put_connection
put_connection-replaces peer q c d t room = ground (
  arith,
  length-put-le peer c t.pool,
  find-put peer q d (put peer c t.pool),
  find-put peer q c t.pool,
)
