-- ===== src/Router/Tracker.antt =====
-- python/propagul/mesh/router.py: `ActiveConnectionTracker`. Each method runs under the lock, so that
-- the requests of many threads are one sequence of calls.
use propagul.Prelude.{
  ℕ, ◌+◌, ◌-◌, ◌≤◌, ◌≡◌, List, [], ◌∷◌, arith, if◌then◌else◌, ite, ltb, Text, dec_text, or_else,
}
use propagul.Prelude.Dict.{Dict, lookup, insert, lookup-insert}

abbrev pub Tracker : Type 0
Tracker = Dict ℕ

unfoldable pub count : Tracker → Text → ℕ
count counts node = or_else (lookup node counts) 0

unfoldable pub acquire : Tracker → Text → Tracker
acquire counts node = insert node (or_else (lookup node counts) 0 + 1) counts

unfoldable pub release : Tracker → Text → Tracker
release counts node =
    let current = or_else (lookup node counts) 0 in
    if ltb 0 current then insert node (current - 1) counts else counts

pub count-acquire :
    (counts : Tracker) (node n : Text)
    → count (acquire counts node) n ≡ ite (dec_text node n) (count counts n + 1) (count counts n)
unfolding count acquire
count-acquire counts node n =
    ground (arith, lookup-insert node n (or_else (lookup node counts) 0 + 1) counts)

pub count-release :
    (counts : Tracker) (node n : Text)
    → count (release counts node) n ≡ ite (dec_text node n) (count counts n - 1) (count counts n)
unfolding count release
count-release counts node n =
    ground (arith, lookup-insert node n (or_else (lookup node counts) 0 - 1) counts)

-- The calls that the threads make.
pub data Call : Type 0 where
  start finish : Text → Call

unfoldable pub run : Tracker → List Call → Tracker
run counts [] = counts
run counts (start node ∷ calls) = run (acquire counts node) calls
run counts (finish node ∷ calls) = run (release counts node) calls

-- how often the node is started, and how often finished
unfoldable pub starts : Text → List Call → ℕ
starts n [] = 0
starts n (start node ∷ calls) = ite (dec_text node n) 1 0 + starts n calls
starts n (finish node ∷ calls) = starts n calls

unfoldable pub finishes : Text → List Call → ℕ
finishes n [] = 0
finishes n (start node ∷ calls) = finishes n calls
finishes n (finish node ∷ calls) = ite (dec_text node n) 1 0 + finishes n calls

-- No request of the node finishes that has not started.
abbrev pub IsPaired : Text → ℕ → List Call → Type 0
IsPaired n open_now [] = Unit
IsPaired n open_now (start node ∷ calls) =
    IsPaired n (ite (dec_text node n) (open_now + 1) open_now) calls
IsPaired n open_now (finish node ∷ calls) =
    (ite (dec_text node n) 1 0 ≤ open_now)
    × IsPaired n (ite (dec_text node n) (open_now - 1) open_now) calls

-- In whatever order the threads' calls come, the count of a node is the number of its requests that
-- have started and not finished, if none finishes that has not started.
pub count-run :
    (n : Text) (calls : List Call) (counts : Tracker)
    → IsPaired n (count counts n) calls
    → count (run counts calls) n + finishes n calls ≡ count counts n + starts n calls
unfolding run starts finishes
count-run n [] counts h = omega arith
count-run n (start node ∷ calls) counts h =
    ground (arith, count-run n calls (acquire counts node), count-acquire counts node n)
count-run n (finish node ∷ calls) counts h =
    ground (arith, count-run n calls (release counts node), count-release counts node n)
