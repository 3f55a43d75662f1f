-- ===== src/Transport/Stopped.antt =====
-- `stop` is made of the steps that may interleave with other calls.
use propagul.Prelude.{refl, [], ◌∷◌}
use propagul.Transport.Pool.{Pool, Transport, begin_stop, close_pooled, close_all, stop}
use propagul.Transport.Bounded.{Reach, next, here, begins_stop, closes, clears}

Reach-close_all : (s t : Transport) (pool : Pool) → Reach s t → Reach s (close_all pool t)
unfolding close_all
Reach-close_all s t [] r = r
Reach-close_all s t (e ∷ pool) r =
    Reach-close_all s (close_pooled e.1 t) pool (next r (closes e.1 refl))

-- Without another call in between, `stop` is a sequence of its steps.
pub Reach-stop : (t : Transport) → Reach t (stop t)
unfolding stop
Reach-stop t =
    next (Reach-close_all t (begin_stop t) t.pool (next here (begins_stop refl))) (clears refl)
