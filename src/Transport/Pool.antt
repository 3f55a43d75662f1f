-- ===== src/Transport/Pool.antt =====
-- python/propagul/transport.py: the pool of outbound connections, and `send`. Times are whole
-- milliseconds. A connection is known by a number; whether its ends are still open is what an argument
-- says. The parts of a call between two awaits are functions of their own, so that calls may interleave.
use propagul.Prelude.{
  ℕ, ◌+◌, ◌*◌, ◌%◌, Bool, true, false, ◌&&◌, ◌||◌, not, Option, none, some, List, [], ◌∷◌, ◌++◌,
  map, if◌then◌else◌, ite, ltb, leb, ◌==◌, length, keep,
}
use propagul.Discovery.{PeerAddress, dec_peer}
use propagul.Transport.Frames.{Bytes, fits}

abbrev pub pool_max_size : ℕ
pool_max_size = 32

abbrev pub pool_ttl : ℕ
pool_ttl = 30 * 1000

abbrev pub evict_interval_rounds : ℕ
evict_interval_rounds = 10

pub record Connection : Type 0 where
  pub id : ℕ
  pub last_used : ℕ

-- `_pool`, in insertion order
abbrev pub Pool : Type 0
Pool = List (PeerAddress × Connection)

unfoldable pub find : PeerAddress → Pool → Option Connection
find peer [] = none
find peer ((p, c) ∷ pool) = let rest = find peer pool in ite (dec_peer p peer) (some c) rest

unfoldable pub put : PeerAddress → Connection → Pool → Pool
put peer c [] = (peer, c) ∷ []
put peer c ((p, d) ∷ pool) =
    let rest = put peer c pool in ite (dec_peer p peer) ((p, c) ∷ pool) ((p, d) ∷ rest)

unfoldable pub pop : PeerAddress → Pool → Pool
pop peer [] = []
pop peer ((p, c) ∷ pool) = let rest = pop peer pool in ite (dec_peer p peer) pool ((p, c) ∷ rest)

-- what `writer.is_closing` and `reader.at_eof` say: both ends are open
abbrev pub Usable : Type 0
Usable = Connection → Bool

-- `is_alive`
abbrev pub is_alive : Usable → ℕ → Connection → Bool
is_alive usable now c = usable c && not (ltb (c.last_used + pool_ttl) now)

-- the object is shared: what is touched is touched in the pool
unfoldable pub touch : ℕ → ℕ → Pool → Pool
touch id now [] = []
touch id now ((p, c) ∷ pool) =
    (p, if c.id == id then record c { last_used = now } else c) ∷ touch id now pool

-- `closed` is what the transport has closed.
pub record Transport : Type 0 where
  pub running : Bool
  pub secret : Bytes
  pub pool : Pool
  pub closed : List ℕ
  pub bytes_sent : ℕ
  pub messages_sent : ℕ
  pub send_errors : ℕ
  pub pool_hits : ℕ
  pub pool_misses : ℕ
  pub send_rounds : ℕ

-- the first half of `_get_connection`: a live connection, or the stale one is closed
unfoldable pub cached :
    Usable → ℕ → PeerAddress → Transport → Option Connection → Transport × Option Connection
cached usable now peer t none = (t, none)
cached usable now peer t (some c) =
    if is_alive usable now c
    then (
      record t { pool_hits = t.pool_hits + 1; pool = touch c.id now t.pool },
      some (record c { last_used = now }),
    )
    else (record t { pool = pop peer t.pool; closed = t.closed ++ (c.id ∷ []) }, none)

unfoldable pub take_cached : Usable → ℕ → PeerAddress → Transport → Transport × Option Connection
take_cached usable now peer t = cached usable now peer t (find peer t.pool)

-- `min(self._pool, key=…last_used)`: the first of the least
unfoldable pub oldest : PeerAddress × Connection → Pool → PeerAddress × Connection
oldest e [] = e
oldest e (f ∷ pool) = oldest (if ltb f.1.last_used e.1.last_used then f else e) pool

unfoldable pub evict_oldest : Transport → Pool → Transport
evict_oldest t [] = t
evict_oldest t (e ∷ pool) =
    let victim = oldest e pool in
    record t { pool = pop victim.0 t.pool; closed = t.closed ++ (victim.1.id ∷ []) }

-- the second half of `_get_connection`, after the connection was opened
unfoldable pub put_connection : PeerAddress → Connection → Transport → Transport
put_connection peer c t =
    let t' = if leb pool_max_size (length t.pool) then evict_oldest t t.pool else t in
    record t' { pool = put peer c t'.pool; pool_misses = t'.pool_misses + 1 }

-- `_evict_stale`
unfoldable pub evict_stale : Usable → ℕ → Transport → Transport
evict_stale usable now t = record t {
  pool = keep (λ e. is_alive usable now e.1) t.pool;
  closed = t.closed ++ map (λ e. e.1.id) (keep (λ e. not (is_alive usable now e.1)) t.pool);
}

-- what follows a failed write: the connection is closed, and whatever the pool has for the peer goes
unfoldable pub broken : PeerAddress → Connection → Transport → Transport
broken peer c t = record t { pool = pop peer t.pool; closed = t.closed ++ (c.id ∷ []) }

unfoldable pub written : Connection → ℕ → ℕ → Transport → Transport
written c size now t = record t {
  pool = touch c.id now t.pool;
  bytes_sent = t.bytes_sent + size;
  messages_sent = t.messages_sent + 1;
}

abbrev pub failed : Transport → Transport
failed t = record t { send_errors = t.send_errors + 1 }

-- the parts of `stop`: the flag, the close of one connection, which is awaited, and the empty pool
abbrev pub begin_stop : Transport → Transport
begin_stop t = record t { running = false }

abbrev pub close_pooled : Connection → Transport → Transport
close_pooled c t = record t { closed = t.closed ++ (c.id ∷ []) }

abbrev pub clear_pool : Transport → Transport
clear_pool t = record t { pool = [] }

unfoldable pub close_all : Pool → Transport → Transport
close_all [] t = t
close_all (e ∷ pool) t = close_all pool (close_pooled e.1 t)

-- `stop`, when no other call runs in between
unfoldable pub stop : Transport → Transport
stop t = clear_pool (close_all t.pool (begin_stop t))

-- What one attempt of `send` meets: the clock, the state of connections, the connection that is
-- opened if one has to be, and whether the write succeeds, with the clock then.
pub record Attempt : Type 0 where
  pub now : ℕ
  pub usable : Usable
  pub opens : Option Connection
  pub writes : Bool
  pub done_at : ℕ

unfoldable pub or_opened :
    Attempt → PeerAddress → Transport × Option Connection → Transport × Option Connection
or_opened a peer (t, some c) = (t, some c)
or_opened a peer (t, none) = elim a.opens [
  | none ↦ (t, none)
  | some c ↦ (put_connection peer c t, some c)
]

-- `_get_connection`, when no other call runs in between
unfoldable pub get_connection : Attempt → PeerAddress → Transport → Transport × Option Connection
get_connection a peer t = or_opened a peer (take_cached a.usable a.now peer t)

-- one attempt; with the result, unless the write failed
unfoldable pub write_frame :
    Attempt → PeerAddress → ℕ → Transport × Option Connection → Transport × Option Bool
write_frame a peer size (t, none) = (failed t, some false)
write_frame a peer size (t, some c) =
    if a.writes then (written c size a.done_at t, some true) else (broken peer c t, none)

unfoldable pub attempt : Attempt → PeerAddress → ℕ → Transport → Transport × Option Bool
attempt a peer size t = write_frame a peer size (get_connection a peer t)

unfoldable pub last_attempt : Transport × Option Bool → Transport × Bool
last_attempt (t, some delivered) = (t, delivered)
last_attempt (t, none) = (failed t, false)

unfoldable pub retry : Attempt → PeerAddress → ℕ → Transport × Option Bool → Transport × Bool
retry a peer size (t, some delivered) = (t, delivered)
retry a peer size (t, none) = last_attempt (attempt a peer size t)

-- `send`, with what its two attempts meet
unfoldable pub send : Attempt → Attempt → PeerAddress → Bytes → Transport → Transport × Bool
send a b peer payload t =
    if not t.running || not (fits t.secret payload)
    then (t, false)
    else retry b peer (length payload) (attempt a peer (length payload) t)

-- the part of `send_to_k_peers` before the sends
unfoldable pub begin_round : Usable → ℕ → Transport → Transport
begin_round usable now t =
    let t' = record t { send_rounds = t.send_rounds + 1 } in
    if t'.send_rounds % evict_interval_rounds == 0 then evict_stale usable now t' else t'
