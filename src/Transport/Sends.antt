-- ===== src/Transport/Sends.antt =====
-- What `send` counts, on each of its branches.
use propagul.Prelude.{
  ℕ, ◌+◌, ◌≡◌, Bool, true, false, ◌||◌, ◌&&◌, not, Option, none, some, [], ◌∷◌, arith,
  if◌then◌else◌, length, Bool-cases, Option-cases, inl, inr,
}
use propagul.Discovery.{PeerAddress}
use propagul.Transport.Frames.{Bytes, fits}
use propagul.Transport.Pool.{
  Connection, Pool, Usable, Transport, find, cached, take_cached, evict_oldest, put_connection,
  broken, written, Attempt, or_opened, get_connection, write_frame, attempt, last_attempt, retry,
  send,
}

-- What a part of `send` leaves of the counts of a transport.
pub record Counts (t u : Transport) (messages bytes errors : ℕ) : Type 0 where
  pub sent : u.messages_sent ≡ t.messages_sent + messages
  pub size : u.bytes_sent ≡ t.bytes_sent + bytes
  pub lost : u.send_errors ≡ t.send_errors + errors

Counts-cached :
    (usable : Usable) (now : ℕ) (peer : PeerAddress) (t : Transport) (o : Option Connection)
    → Counts t (cached usable now peer t o).0 0 0 0
unfolding cached
Counts-cached usable now peer t none = omega arith
Counts-cached usable now peer t (some c) = ground arith

Counts-evict_oldest : (t : Transport) (pool : Pool) → Counts t (evict_oldest t pool) 0 0 0
unfolding evict_oldest
Counts-evict_oldest t [] = omega arith
Counts-evict_oldest t (e ∷ pool) = omega arith

Counts-put_connection :
    (peer : PeerAddress) (c : Connection) (t : Transport) → Counts t (put_connection peer c t) 0 0 0
unfolding put_connection
Counts-put_connection peer c t = ground (arith, Counts-evict_oldest t t.pool)

Counts-or_opened :
    (a : Attempt) (peer : PeerAddress) (t : Transport) (r : Transport × Option Connection)
    → Counts t r.0 0 0 0
    → Counts t (or_opened a peer r).0 0 0 0
unfolding or_opened
Counts-or_opened a peer t (u, some c) h = h
Counts-or_opened a peer t (u, none) h = elim (Option-cases a.opens) [
  | inl e ↦ rw e h
  | inr (c, e) ↦ rw e (ground (arith, Counts-put_connection peer c u))
]

Counts-get_connection :
    (a : Attempt) (peer : PeerAddress) (t : Transport) → Counts t (get_connection a peer t).0 0 0 0
unfolding get_connection take_cached
Counts-get_connection a peer t =
    Counts-or_opened a peer t (take_cached a.usable a.now peer t)
      (Counts-cached a.usable a.now peer t (find peer t.pool))

-- What an attempt counts: nothing, if it is to be repeated.
abbrev Attempted : Transport → ℕ → Transport × Option Bool → Type 0
Attempted t size (u, none) = Counts t u 0 0 0
Attempted t size (u, some true) = Counts t u 1 size 0
Attempted t size (u, some false) = Counts t u 0 0 1

Attempted-write_frame :
    (a : Attempt) (peer : PeerAddress) (size : ℕ) (t : Transport)
    (r : Transport × Option Connection)
    → Counts t r.0 0 0 0
    → Attempted t size (write_frame a peer size r)
unfolding write_frame written broken
Attempted-write_frame a peer size t (u, none) h = omega arith
Attempted-write_frame a peer size t (u, some c) h = elim (Bool-cases a.writes) [
  | inl e ↦ rw e (omega arith)
  | inr e ↦ rw e (omega arith)
]

Attempted-attempt :
    (a : Attempt) (peer : PeerAddress) (size : ℕ) (t : Transport)
    → Attempted t size (attempt a peer size t)
unfolding attempt
Attempted-attempt a peer size t =
    Attempted-write_frame a peer size t (get_connection a peer t) (Counts-get_connection a peer t)

-- what is counted when the attempts are over
abbrev Finished : Transport → ℕ → Transport × Bool → Type 0
Finished t size (u, true) = Counts t u 1 size 0
Finished t size (u, false) = Counts t u 0 0 1

Finished-last_attempt :
    (t : Transport) (size : ℕ) (r : Transport × Option Bool)
    → Attempted t size r
    → Finished t size (last_attempt r)
unfolding last_attempt
Finished-last_attempt t size (u, none) h = omega arith
Finished-last_attempt t size (u, some true) h = h
Finished-last_attempt t size (u, some false) h = h

Finished-retry :
    (a : Attempt) (peer : PeerAddress) (size : ℕ) (t : Transport) (r : Transport × Option Bool)
    → Attempted t size r
    → Finished t size (retry a peer size r)
unfolding retry
Finished-retry a peer size t (u, some true) h = h
Finished-retry a peer size t (u, some false) h = h
Finished-retry a peer size t (u, none) h =
    after (last_attempt (attempt a peer size u))
      (Finished-last_attempt u size (attempt a peer size u) (Attempted-attempt a peer size u))
  where
    after : (r : Transport × Bool) → Finished u size r → Finished t size r
    after (v, true) k = omega arith
    after (v, false) k = omega arith

-- Whatever its two attempts meet, `send` counts a message and its bytes exactly if it returns True,
-- and an error exactly if it returns False although it runs and the message is not too long.
pub Counts-send :
    (a b : Attempt) (peer : PeerAddress) (payload : Bytes) (t : Transport)
    → let r = send a b peer payload t in
      let tried = t.running && fits t.secret payload in
      Counts t r.0
        (if r.1 then 1 else 0)
        (if r.1 then length payload else 0)
        (if tried && not r.1 then 1 else 0)
unfolding send
Counts-send a b peer payload t =
    go t.running (fits t.secret payload)
      (retry b peer (length payload) (attempt a peer (length payload) t))
      (Finished-retry b peer (length payload) t (attempt a peer (length payload) t)
        (Attempted-attempt a peer (length payload) t))
  where
    go :
        (on fine : Bool) (r : Transport × Bool)
        → Finished t (length payload) r
        → let q : Transport × Bool = if not on || not fine then (t, false) else r in
          Counts t q.0
            (if q.1 then 1 else 0)
            (if q.1 then length payload else 0)
            (if (on && fine) && not q.1 then 1 else 0)
    go true true (u, true) h = h
    go true true (u, false) h = h
    go true false r h = omega arith
    go false fine r h = omega arith
