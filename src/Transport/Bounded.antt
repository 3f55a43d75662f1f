-- ===== src/Transport/Bounded.antt =====
-- The pool however calls interleave: each step is the part of a call between two awaits.
use propagul.Prelude.{
  ℕ, ◌+◌, ◌-◌, ◌≤◌, ◌≡◌, refl, ap, ◌∙◌, Bool, true, false, Option, none, some, List, [], ◌∷◌, map,
  arith, if◌then◌else◌, ite, ltb, leb, length, keep, length-keep-le, Bool-cases, inl, inr,
}
use propagul.Prelude.Finite.{member, IsDistinct}
use propagul.Discovery.{PeerAddress, dec_peer}
use propagul.Transport.Pool.{
  Connection, Pool, find, put, pop, touch, pool_max_size, Usable, Transport, cached, take_cached,
  oldest, evict_oldest, put_connection, evict_stale, broken, written, begin_stop, close_pooled,
  clear_pool, is_alive,
}

abbrev peers : Pool → List PeerAddress
peers = map (λ e. e.0)

-- No peer has two connections, and there are at most as many as may be.
pub record IsBounded (t : Transport) : Type 0 where
  pub few : length t.pool ≤ pool_max_size
  pub distinct : IsDistinct dec_peer (peers t.pool)

-- One step of some call: the pool is looked up, a connection that was opened is put in, a write
-- succeeds or fails, stale connections are evicted, or `stop` resets the flag, closes a connection or
-- empties the pool.
pub data Step (t u : Transport) : Type 0 where
  looks_up :
      (usable : Usable) (now : ℕ) (peer : PeerAddress)
      → u ≡ (take_cached usable now peer t).0
      → Step t u
  opens : (peer : PeerAddress) (c : Connection) → u ≡ put_connection peer c t → Step t u
  writes : (c : Connection) (size now : ℕ) → u ≡ written c size now t → Step t u
  breaks : (peer : PeerAddress) (c : Connection) → u ≡ broken peer c t → Step t u
  evicts : (usable : Usable) (now : ℕ) → u ≡ evict_stale usable now t → Step t u
  begins_stop : u ≡ begin_stop t → Step t u
  closes : (c : Connection) → u ≡ close_pooled c t → Step t u
  clears : u ≡ clear_pool t → Step t u

pub data Reach (s : Transport) : Transport → Type 0 where
  here : Reach s s
  next : {t u : Transport} → Reach s t → Step t u → Reach s u

member-pop :
    (p q : PeerAddress) (pool : Pool)
    → member dec_peer q (peers pool) ≡ false
    → member dec_peer q (peers (pop p pool)) ≡ false
unfolding pop member
member-pop p q [] h = refl
member-pop p q ((r, c) ∷ pool) h = ground (arith, member-pop p q pool)

pop-IsDistinct :
    (p : PeerAddress) (pool : Pool)
    → IsDistinct dec_peer (peers pool)
    → IsDistinct dec_peer (peers (pop p pool))
unfolding pop
pop-IsDistinct p [] h = tt
pop-IsDistinct p ((r, c) ∷ pool) h = ground (arith, pop-IsDistinct p pool, member-pop p r pool)

length-pop-le : (p : PeerAddress) (pool : Pool) → length (pop p pool) ≤ length pool
unfolding pop
length-pop-le p [] = omega arith
length-pop-le p ((r, c) ∷ pool) = ground (arith, length-pop-le p pool)

length-pop :
    (p : PeerAddress) (pool : Pool)
    → member dec_peer p (peers pool) ≡ true
    → length (pop p pool) + 1 ≡ length pool
unfolding pop member
length-pop p [] h = cc
length-pop p ((r, c) ∷ pool) h = ground (arith, length-pop p pool)

member-oldest :
    (e : PeerAddress × Connection) (pool : Pool)
    → member dec_peer (oldest e pool).0 (peers (e ∷ pool)) ≡ true
unfolding oldest member
member-oldest e [] = ground arith
member-oldest e (f ∷ pool) =
    go (ltb f.1.last_used e.1.last_used) (member-oldest f pool) (member-oldest e pool)
  where
    go :
        (b : Bool)
        → member dec_peer (oldest f pool).0 (peers (f ∷ pool)) ≡ true
        → member dec_peer (oldest e pool).0 (peers (e ∷ pool)) ≡ true
        → member dec_peer (oldest (if b then f else e) pool).0 (peers (e ∷ f ∷ pool)) ≡ true
    go true h k = ground (arith, h)
    go false h k = ground (arith, k)

member-put :
    (p q : PeerAddress) (c : Connection) (pool : Pool)
    → member dec_peer q (peers (put p c pool))
      ≡ ite (dec_peer p q) true (member dec_peer q (peers pool))
unfolding put member
member-put p q c [] = refl
member-put p q c ((r, d) ∷ pool) = ground (arith, member-put p q c pool)

put-IsDistinct :
    (p : PeerAddress) (c : Connection) (pool : Pool)
    → IsDistinct dec_peer (peers pool)
    → IsDistinct dec_peer (peers (put p c pool))
unfolding put member
put-IsDistinct p c [] h = (refl, tt)
put-IsDistinct p c ((r, d) ∷ pool) h =
    ground (arith, put-IsDistinct p c pool, member-put p r c pool)

pub length-put-le :
    (p : PeerAddress) (c : Connection) (pool : Pool) → length (put p c pool) ≤ length pool + 1
unfolding put
length-put-le p c [] = omega arith
length-put-le p c ((r, d) ∷ pool) = ground (arith, length-put-le p c pool)

peers-touch : (id now : ℕ) (pool : Pool) → peers (touch id now pool) ≡ peers pool
unfolding touch
peers-touch id now [] = refl
peers-touch id now ((p, c) ∷ pool) = ap (◌∷◌ p) (peers-touch id now pool)

length-touch : (id now : ℕ) (pool : Pool) → length (touch id now pool) ≡ length pool
unfolding touch
length-touch id now [] = refl
length-touch id now ((p, c) ∷ pool) = omega (arith, length-touch id now pool)

member-keep_peers :
    (test : PeerAddress × Connection → Bool) (q : PeerAddress) (pool : Pool)
    → member dec_peer q (peers pool) ≡ false
    → member dec_peer q (peers (keep test pool)) ≡ false
unfolding member keep
member-keep_peers test q [] h = refl
member-keep_peers test q ((r, c) ∷ pool) h = ground (arith, member-keep_peers test q pool)

keep-IsDistinct_peers :
    (test : PeerAddress × Connection → Bool) (pool : Pool)
    → IsDistinct dec_peer (peers pool)
    → IsDistinct dec_peer (peers (keep test pool))
unfolding keep
keep-IsDistinct_peers test [] h = tt
keep-IsDistinct_peers test ((r, c) ∷ pool) h =
    ground (arith, keep-IsDistinct_peers test pool, member-keep_peers test r pool)

IsBounded-pop :
    (p : PeerAddress) (t u : Transport) → IsBounded t → u.pool ≡ pop p t.pool → IsBounded u
IsBounded-pop p t u v e = record {
  few = rw e (omega (arith, v.few, length-pop-le p t.pool));
  distinct = rw e (pop-IsDistinct p t.pool v.distinct);
}

IsBounded-touch :
    (id now : ℕ) (t u : Transport) → IsBounded t → u.pool ≡ touch id now t.pool → IsBounded u
IsBounded-touch id now t u v e = record {
  few = rw (e, length-touch id now t.pool) v.few;
  distinct = rw (e, peers-touch id now t.pool) v.distinct;
}

IsBounded-cached :
    (usable : Usable) (now : ℕ) (peer : PeerAddress) (t : Transport) (o : Option Connection)
    → IsBounded t
    → IsBounded (cached usable now peer t o).0
unfolding cached
IsBounded-cached usable now peer t none v = v
IsBounded-cached usable now peer t (some c) v = elim (Bool-cases (is_alive usable now c)) [
  | inl h ↦ rw h (IsBounded-touch c.id now t _ v refl)
  | inr h ↦ rw h (IsBounded-pop peer t _ v refl)
]

-- What is left after the oldest was evicted, where the pool was full.
evicted_room :
    (t : Transport) (pool : Pool)
    → t.pool ≡ pool
    → IsBounded t
    → (length (evict_oldest t pool).pool ≤ pool_max_size - 1)
      × IsDistinct dec_peer (peers (evict_oldest t pool).pool)
unfolding evict_oldest
evicted_room t [] e v = rw e (omega arith, tt)
evicted_room t (x ∷ pool) e v = (
  omega (
    arith,
    v.few,
    length-pop (oldest x pool).0 t.pool
        (ap (λ l. member dec_peer (oldest x pool).0 (peers l)) e ∙ member-oldest x pool),
  ),
  pop-IsDistinct (oldest x pool).0 t.pool v.distinct,
)

IsBounded-put :
    (peer : PeerAddress) (c : Connection) (t u : Transport)
    → (length t.pool ≤ pool_max_size - 1) × IsDistinct dec_peer (peers t.pool)
    → u.pool ≡ put peer c t.pool
    → IsBounded u
IsBounded-put peer c t u (few, distinct) e = record {
  few = rw e (omega (arith, length-put-le peer c t.pool));
  distinct = rw e (put-IsDistinct peer c t.pool distinct);
}

IsBounded-put_connection :
    (peer : PeerAddress) (c : Connection) (t : Transport)
    → IsBounded t
    → IsBounded (put_connection peer c t)
unfolding put_connection
IsBounded-put_connection peer c t v = elim (Bool-cases (leb pool_max_size (length t.pool))) [
  | inl h ↦
      rw h (IsBounded-put peer c (evict_oldest t t.pool) _ (evicted_room t t.pool refl v) refl)
  | inr h ↦ rw h (IsBounded-put peer c t _ (ground (arith, v.few, h), v.distinct) refl)
]

Step-IsBounded : {t u : Transport} → Step t u → IsBounded t → IsBounded u
unfolding take_cached written broken evict_stale
Step-IsBounded {t} (looks_up usable now peer e) v =
    rw e (IsBounded-cached usable now peer t (find peer t.pool) v)
Step-IsBounded {t} (opens peer c e) v = rw e (IsBounded-put_connection peer c t v)
Step-IsBounded {t} (writes c size now e) v = rw e (IsBounded-touch c.id now t _ v refl)
Step-IsBounded {t} (breaks peer c e) v = rw e (IsBounded-pop peer t _ v refl)
Step-IsBounded {t} (evicts usable now e) v = rw e (record {
  few = omega (
    arith,
    v.few,
    length-keep-le (λ (x : PeerAddress × Connection). is_alive usable now x.1) t.pool,
  );
  distinct = keep-IsDistinct_peers (λ x. is_alive usable now x.1) t.pool v.distinct;
})
Step-IsBounded {t} (begins_stop e) v = rw e (record { few = v.few; distinct = v.distinct })
Step-IsBounded {t} (closes c e) v = rw e (record { few = v.few; distinct = v.distinct })
Step-IsBounded {t} (clears e) v = rw e (record { few = omega arith; distinct = tt })

-- In whatever order the parts of calls run, the pool has no more than 32 connections, and none twice
-- for one peer, if it was so at first.
pub Reach-IsBounded : {s t : Transport} → IsBounded s → Reach s t → IsBounded t
Reach-IsBounded v here = v
Reach-IsBounded v (next r st) = Step-IsBounded st (Reach-IsBounded v r)
