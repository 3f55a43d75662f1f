-- ===== src/Agent/Pull.antt =====
-- python/propagul/mesh/agent.py: `_handle_pull_with_progress`, and a cancel that comes while it runs.
-- Times are whole milliseconds. The percentage of a post is left out.
use propagul.Prelude.{
  ℕ, ◌+◌, Bool, true, false, ◌&&◌, ◌||◌, not, List, [], ◌∷◌, ◌++◌, if◌then◌else◌, ltb, Text, codes,
  dec_text,
}
use propagul.Prelude.Finite.{member, add, discard}
use propagul.Agent.Reconcile.{is_text}

-- an event of the stream, and the time when it is read
pub record PullEvent : Type 0 where
  pub status : Text
  pub total : ℕ
  pub completed : ℕ
  pub now : ℕ

-- what happens while a pull runs: an event of its stream, or a `cancel_pull` command for a model
pub data Moment : Type 0 where
  progress : PullEvent → Moment
  cancel : Text → Moment

-- a post to the dashboard
pub record Post : Type 0 where
  pub status : Text
  pub total : ℕ
  pub completed : ℕ

-- `returned` once the handler has returned
pub record Pulling : Type 0 where
  pub cancel_pulls : List Text
  pub posts : List Post
  pub last_post : ℕ
  pub auto_pulls : ℕ
  pub returned : Bool

abbrev pub success : Text
success = codes "success"

abbrev pub failure : Text
failure = codes "error"

abbrev pub cancelled : Post
cancelled = record { status = codes "cancelled"; total = 0; completed = 0 }

abbrev pub broken : Post
broken = record { status = failure; total = 0; completed = 0 }

abbrev pub is_last : Text → Bool
is_last status = is_text status success || is_text status failure

-- `now - last_post < 0.5 and status not in ("success", "error")`
unfoldable pub is_throttled : PullEvent → ℕ → Bool
is_throttled e last_post = ltb e.now (last_post + 500) && not (is_last e.status)

-- one round of the loop
unfoldable pub on_event : Text → PullEvent → Pulling → Pulling
on_event model e p =
    if is_throttled e p.last_post
    then p
    else if member dec_text model p.cancel_pulls
    then record p {
      cancel_pulls = discard dec_text model p.cancel_pulls;
      posts = p.posts ++ (cancelled ∷ []);
      returned = true;
    }
    else record p {
      posts =
          p.posts ++ (record { status = e.status; total = e.total; completed = e.completed } ∷ []);
      last_post = e.now;
      auto_pulls = if is_text e.status success then p.auto_pulls + 1 else p.auto_pulls;
    }

-- a handler that has returned reads no more events
unfoldable pub on_moment : Text → Moment → Pulling → Pulling
on_moment model (progress e) p = if p.returned then p else on_event model e p
on_moment model (cancel m) p = record p { cancel_pulls = add dec_text m p.cancel_pulls }

unfoldable pub pull_rounds : Text → List Moment → Pulling → Pulling
pull_rounds model [] p = p
pull_rounds model (x ∷ rest) p = pull_rounds model rest (on_moment model x p)

-- the stream ends, or raises
unfoldable pub end_pull : Bool → Pulling → Pulling
end_pull raises p =
    if p.returned
    then p
    else if raises
    then record p { posts = p.posts ++ (broken ∷ []); returned = true }
    else record p { returned = true }

-- `_handle_pull_with_progress`, started with the set `_cancel_pulls` as it is
unfoldable pub handle_pull : Text → List Moment → Bool → List Text → ℕ → Pulling
handle_pull model moments raises cancels pulls = end_pull raises (
    pull_rounds model moments (record {
      cancel_pulls = cancels;
      posts = [];
      last_post = 0;
      auto_pulls = pulls;
      returned = false;
    }))
