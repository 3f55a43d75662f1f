-- ===== src/Agent/Reconcile.antt =====
-- python/propagul/mesh/agent.py: `_reconcile_desired_models`. A command of the Ollama backend is an
-- argument: what it answers, or none where it raises.
use propagul.Prelude.{
  ℕ, ◌+◌, Bool, true, false, ◌&&◌, not, Option, none, some, List, [], ◌∷◌, ◌++◌, if◌then◌else◌, ite,
  Text, codes, dec_text, ltb, length, or_else,
}
use propagul.Prelude.Finite.{member, add}
use propagul.Prelude.Dict.{Dict}

-- the counters of `_stats`; `ejects` is there from the first eject on
pub record Stats : Type 0 where
  pub polls : ℕ
  pub pushes : ℕ
  pub errors : ℕ
  pub commands : ℕ
  pub config_syncs : ℕ
  pub auto_pulls : ℕ
  pub auto_deletes : ℕ
  pub ejects : ℕ

-- the result of a command: its status
abbrev pub Backend : Type 0
Backend = Text → Text → Option Text

-- one entry of `results`
pub record Action : Type 0 where
  pub model : Text
  pub action : Text
  pub status : Text

abbrev pub pull : Text
pull = codes "pull"

abbrev pub remove : Text
remove = codes "delete"

-- the names of the local models, of each backend; empty names are skipped
unfoldable pub add_names : List Text → List Text → List Text
add_names [] names = names
add_names (name ∷ rest) names =
    add_names rest (if ltb 0 (length name) then add dec_text name names else names)

unfoldable pub local_models : List (List Text) → List Text → List Text
local_models [] names = names
local_models (backend ∷ rest) names = local_models rest (add_names backend names)

abbrev pub is_text : Text → Text → Bool
is_text a b = ite (dec_text a b) true false

-- the counter of an action moves unless the command raises
unfoldable pub count_action : Text → Option Text → Stats → Stats
count_action action none stats = stats
count_action action (some status) stats =
    if is_text action pull
    then record stats { auto_pulls = stats.auto_pulls + 1 }
    else record stats { auto_deletes = stats.auto_deletes + 1 }

-- what is done for a model: a pull if it is wanted and not there, a delete if it is there and
-- unwanted
unfoldable pub wants : List Text → Text → Text → Bool
wants names model action =
    if is_text action pull
    then not (member dec_text model names)
    else is_text action remove && member dec_text model names

abbrev pub run_action : Backend → Text → Text → List Action × Stats → List Action × Stats
run_action backend model action (results, stats) =
    let answer = backend action model in
    (
      results
          ++ (record { model = model; action = action; status = or_else answer (codes "error") }
              ∷ []),
      count_action action answer stats,
    )

-- the loop over the desired models
unfoldable pub act_on : Backend → List Text → Dict Text → List Action × Stats → List Action × Stats
act_on backend names [] done = done
act_on backend names ((model, action) ∷ rest) done =
    act_on backend names rest
      (if wants names model action then run_action backend model action done else done)

abbrev pub has_desired : Dict Text → Bool
has_desired [] = false
has_desired (e ∷ d) = true

-- `_reconcile_desired_models`: the snapshot's models, if there is a snapshot, and whether there is the
-- URL of a backend
unfoldable pub reconcile :
    Backend → Bool → Dict Text → Option (List (List Text)) → Stats → List Action × Stats
reconcile backend has_backend desired none stats = ([], stats)
reconcile backend has_backend desired (some snapshot) stats =
    if has_desired desired && has_backend
    then act_on backend (local_models snapshot []) desired ([], stats)
    else ([], stats)
