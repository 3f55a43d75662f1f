-- ===== src/Agent/Cancelling.antt =====
-- What a pull reports, and what a cancel does to it.
use propagul.Prelude.{
  ℕ, ◌+◌, ◌≤◌, ◌≡◌, ◌≢◌, refl, sym, ap, subst, ◌∙◌, ◌<◌, Bool, true, false, List, [], ◌∷◌, ◌++◌,
  arith, if◌then◌else◌, Text, dec_text, length,
}
use propagul.Prelude.Finite.{member, add, discard, member-add}
use propagul.Agent.Reconcile.{Backend, is_text, pull}
use propagul.Agent.Commands.{
  Worker, Callback, cancel_pull, inference, execute, finish_command, execute_all,
}
use propagul.Agent.Pull.{
  PullEvent, Moment, progress, cancel, Post, Pulling, success, cancelled, broken, is_throttled,
  on_event, on_moment, pull_rounds, end_pull, handle_pull,
}

-- A handler that has returned posts and counts nothing more.
pull_rounds-returned :
    (model : Text) (moments : List Moment) (p : Pulling)
    → p.returned ≡ true
    → ((pull_rounds model moments p).posts ≡ p.posts)
      × ((pull_rounds model moments p).auto_pulls ≡ p.auto_pulls)
      × ((pull_rounds model moments p).returned ≡ true)
unfolding pull_rounds on_moment
pull_rounds-returned model [] p h = (refl, refl, h)
pull_rounds-returned model (progress e ∷ rest) p h =
    ground (arith, h, pull_rounds-returned model rest p h)
pull_rounds-returned model (cancel m ∷ rest) p h =
    pull_rounds-returned model rest (on_moment model (cancel m) p) h

-- A pull whose model stands in the set of cancels posts at its first event only that it was cancelled.
handle_pull-cancelled :
    (model : Text) (e : PullEvent) (rest : List Moment) (raises : Bool) (cancels : List Text)
    (pulls : ℕ)
    → member dec_text model cancels ≡ true
    → 500 ≤ e.now
    → ((handle_pull model (progress e ∷ rest) raises cancels pulls).posts ≡ cancelled ∷ [])
      × ((handle_pull model (progress e ∷ rest) raises cancels pulls).auto_pulls ≡ pulls)
unfolding handle_pull pull_rounds on_moment on_event is_throttled end_pull
handle_pull-cancelled model e rest raises cancels pulls there late = ground (
  arith,
  there,
  late,
  pull_rounds-returned model rest
      (record {
        cancel_pulls = discard dec_text model cancels;
        posts = cancelled ∷ [];
        last_post = 0;
        auto_pulls = pulls;
        returned = true;
      })
      refl,
)

cancel_pull-ne-inference : cancel_pull ≢ inference
cancel_pull-ne-inference h = cc

cancel_pull-ne-pull : cancel_pull ≢ pull
cancel_pull-ne-pull h = cc

cancel_pulls-execute_all :
    (backend : Backend) (callback : Callback) (name url : Text) (w : Worker) (model : Text)
    → 0 < length url
    → (execute_all backend callback
        (name, url)
        (record { command = cancel_pull; model = model } ∷ [])
        w).cancel_pulls
      ≡ add dec_text model w.cancel_pulls
unfolding execute_all execute finish_command
cancel_pulls-execute_all backend callback name url w model h =
    ground (arith, h, cancel_pull-ne-inference, cancel_pull-ne-pull)

-- A cancel_pull command that is executed while no pull runs cancels the next pull of its model: it
-- posts only that it was cancelled, and is not counted, if there is a backend and its first event is
-- read half a second after the clock's origin or later.
pub handle_pull-execute_all :
    (backend : Backend) (callback : Callback) (name url : Text) (w : Worker) (model : Text)
    (e : PullEvent) (rest : List Moment) (raises : Bool) (pulls : ℕ)
    → 0 < length url
    → 500 ≤ e.now
    → let cancels =
        (execute_all backend callback
          (name, url)
          (record { command = cancel_pull; model = model } ∷ [])
          w).cancel_pulls in
      ((handle_pull model (progress e ∷ rest) raises cancels pulls).posts ≡ cancelled ∷ [])
      × ((handle_pull model (progress e ∷ rest) raises cancels pulls).auto_pulls ≡ pulls)
handle_pull-execute_all backend callback name url w model e rest raises pulls some_url late =
    handle_pull-cancelled model e rest raises _ pulls
      (ap (member dec_text model)
          (cancel_pulls-execute_all backend callback name url w model some_url)
        ∙ member-add dec_text model model w.cancel_pulls
        ∙ ground arith)
      late

-- the events of a status, and the posts
unfoldable pub successes : List Moment → ℕ
successes [] = 0
successes (progress e ∷ rest) = successes rest + (if is_text e.status success then 1 else 0)
successes (cancel m ∷ rest) = successes rest

unfoldable pub posted : List Post → ℕ
posted [] = 0
posted (q ∷ rest) = posted rest + (if is_text q.status success then 1 else 0)

posted-append : (ps qs : List Post) → posted (ps ++ qs) ≡ posted ps + posted qs
unfolding posted
posted-append [] qs = omega arith
posted-append (p ∷ ps) qs = omega (arith, posted-append ps qs)

-- No cancel for the model comes while it is pulled.
abbrev pub IsUncancelled : Text → List Moment → Type 0
IsUncancelled model [] = Unit
IsUncancelled model (progress e ∷ rest) = IsUncancelled model rest
IsUncancelled model (cancel m ∷ rest) = (m ≢ model) × IsUncancelled model rest

record Reports (n : ℕ) (p q : Pulling) : Type 0 where
  posts : posted q.posts ≡ posted p.posts + n
  pulls : q.auto_pulls ≡ p.auto_pulls + n
  runs : q.returned ≡ false

Reports-on_event :
    (model : Text) (e : PullEvent) (p : Pulling)
    → p.returned ≡ false
    → member dec_text model p.cancel_pulls ≡ false
    → Reports (if is_text e.status success then 1 else 0) p (on_event model e p)
      × (member dec_text model (on_event model e p).cancel_pulls ≡ false)
unfolding on_event is_throttled posted
Reports-on_event model e p runs free = ground (
  arith,
  runs,
  free,
  posted-append p.posts
      (record { status = e.status; total = e.total; completed = e.completed } ∷ []),
)

on_moment-runs :
    (model : Text) (e : PullEvent) (p : Pulling)
    → p.returned ≡ false
    → on_moment model (progress e) p ≡ on_event model e p
unfolding on_moment
on_moment-runs model e p runs = ap (λ b. if b then p else on_event model e p) runs

on_moment-free :
    (model m : Text) (p : Pulling)
    → member dec_text model p.cancel_pulls ≡ false
    → m ≢ model
    → member dec_text model (on_moment model (cancel m) p).cancel_pulls ≡ false
unfolding on_moment
on_moment-free model m p free other =
    ground (arith, free, other, member-add dec_text m model p.cancel_pulls)

Reports-pull_rounds :
    (model : Text) (moments : List Moment) (p : Pulling)
    → p.returned ≡ false
    → member dec_text model p.cancel_pulls ≡ false
    → IsUncancelled model moments
    → Reports (successes moments) p (pull_rounds model moments p)
unfolding pull_rounds successes on_moment
Reports-pull_rounds model [] p runs free u = record {
  posts = omega arith;
  pulls = omega arith;
  runs = runs;
}
Reports-pull_rounds model (progress e ∷ rest) p runs free u =
    let (r, f) = Reports-on_event model e p runs free in
    let ih = Reports-pull_rounds model rest (on_event model e p) r.runs f u in
    subst (λ q. Reports (successes (progress e ∷ rest)) p (pull_rounds model rest q))
      (sym (on_moment-runs model e p runs))
      (record {
        posts = omega (arith, r.posts, ih.posts);
        pulls = omega (arith, r.pulls, ih.pulls);
        runs = ih.runs;
      })
Reports-pull_rounds model (cancel m ∷ rest) p runs free u =
    let ih =
      Reports-pull_rounds model rest (on_moment model (cancel m) p) runs
        (on_moment-free model m p free u.0) u.1 in
    record { posts = ih.posts; pulls = ih.pulls; runs = ih.runs }

end_pull-Reports :
    (n : ℕ) (p q : Pulling) (raises : Bool)
    → Reports n p q
    → (posted (end_pull raises q).posts ≡ posted p.posts + n)
      × ((end_pull raises q).auto_pulls ≡ p.auto_pulls + n)
unfolding end_pull posted
end_pull-Reports n p q true r =
    ground (arith, r.runs, r.posts, r.pulls, posted-append q.posts (broken ∷ []))
end_pull-Reports n p q false r = ground (arith, r.runs, r.posts, r.pulls)

-- A pull whose model is not in the set of cancels at its start, and for which no cancel comes, posts
-- every success event of its stream and no other success, however fast the events come and whether
-- the stream raises or not, and counts each of them.
pub handle_pull-Reports :
    (model : Text) (moments : List Moment) (raises : Bool) (cancels : List Text) (pulls : ℕ)
    → member dec_text model cancels ≡ false
    → IsUncancelled model moments
    → (posted (handle_pull model moments raises cancels pulls).posts ≡ successes moments)
      × ((handle_pull model moments raises cancels pulls).auto_pulls ≡ pulls + successes moments)
unfolding handle_pull posted
handle_pull-Reports model moments raises cancels pulls free u =
    let start : Pulling = record {
      cancel_pulls = cancels;
      posts = [];
      last_post = 0;
      auto_pulls = pulls;
      returned = false;
    } in
    omega (
      arith,
      end_pull-Reports (successes moments) start (pull_rounds model moments start) raises
          (Reports-pull_rounds model moments start refl free u),
    )
