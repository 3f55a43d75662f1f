-- ===== src/Agent/Commands.antt =====
-- python/propagul/mesh/agent.py: `_fetch_and_execute_commands`. What Ollama answers to a command is an
-- argument: a status, or none where the call raises, which ends the loop over the commands, as an
-- exception of `on_command` does.
use propagul.Prelude.{
  ◌+◌, Bool, true, false, ◌&&◌, ◌||◌, not, Option, none, some, List, [], ◌∷◌, ◌++◌, if◌then◌else◌,
  Text, codes, dec_text, ltb, length,
}
use propagul.Prelude.Finite.{add}
use propagul.Agent.Reconcile.{Stats, Backend, is_text, pull}

pub record Command : Type 0 where
  pub command : Text
  pub model : Text

-- a detected backend
pub record Detected : Type 0 where
  pub name : Text
  pub url : Text

-- what commands change: the counters, the set `_cancel_pulls`, the pull threads that were started,
-- and the calls of `on_command` with the status, none for no result
pub record Worker : Type 0 where
  pub stats : Stats
  pub cancel_pulls : List Text
  pub started : List Text
  pub told : List (Command × Option Text)

-- `on_command`, if there is one: whether it raises for a command and its status
abbrev pub Callback : Type 0
Callback = Option (Command → Option Text → Bool)

abbrev pub has_callback : Callback → Bool
has_callback none = false
has_callback (some f) = true

abbrev pub callback_raises : Callback → Command → Option Text → Bool
callback_raises none c result = false
callback_raises (some f) c result = f c result

abbrev pub ollama : Text
ollama = codes "ollama"

abbrev pub inference : Text
inference = codes "inference"

abbrev pub cancel_pull : Text
cancel_pull = codes "cancel_pull"

abbrev pub eject : Text
eject = codes "eject"

-- the name and the URL of the backend; an override is taken to be Ollama
unfoldable pub command_backend : Text → List Detected → Text × Text
command_backend url [] = (ollama, url)
command_backend url (d ∷ rest) = if ltb 0 (length url) then (ollama, url) else (d.name, d.url)

-- `result` after the command, and the state before the counting; none where it raises
unfoldable pub answered : Option Text → Worker → Option (Option Text × Worker)
answered none w = none
answered (some status) w = some (some status, w)

abbrev pub count_eject : Worker → Worker
count_eject w = record w { stats = record w.stats { ejects = w.stats.ejects + 1 } }

unfoldable pub execute : Backend → Text → Command → Worker → Option (Option Text × Worker)
execute backend name c w =
    if is_text name ollama && is_text c.command pull
    then some (none, record w { started = w.started ++ (c.model ∷ []) })
    else if is_text c.command cancel_pull
    then some (none, record w { cancel_pulls = add dec_text c.model w.cancel_pulls })
    else if is_text c.command eject && is_text name ollama
    then answered (backend eject c.model) (count_eject w)
    else if is_text name ollama
    then answered (backend c.command c.model) w
    else some (some (codes "error"), w)

-- `self._stats["commands"] += 1` and the callback, if there is one; and whether this raises
unfoldable pub finish_command : Callback → Command → Option Text × Worker → Worker × Bool
finish_command callback c (result, w) = (
  record w {
    stats = record w.stats { commands = w.stats.commands + 1 };
    told = if has_callback callback then w.told ++ ((c, result) ∷ []) else w.told;
  },
  callback_raises callback c result,
)

-- The state after the loop. An eject is counted only after its call, so that a call which raises
-- leaves the state as it was.
unfoldable pub execute_all : Backend → Callback → Text × Text → List Command → Worker → Worker
execute_all backend callback at [] w = w
execute_all backend callback at (c ∷ rest) w =
    elim (is_text c.command inference || not (ltb 0 (length at.1))) [
      | true ↦ execute_all backend callback at rest w
      | false ↦ elim (execute backend at.0 c w) [
        | none ↦ w
        | some done ↦
            let (w', raised) = finish_command callback c done in
            elim raised [ true ↦ w' | false ↦ execute_all backend callback at rest w' ]
      ]
    ]

-- the commands that the dashboard answers, none where the request raises
unfoldable pub fetch_and_execute_commands :
    Backend → Callback → Text → List Detected → Option (List Command) → Worker → Worker
fetch_and_execute_commands backend callback url detected none w = w
fetch_and_execute_commands backend callback url detected (some commands) w =
    execute_all backend callback (command_backend url detected) commands w
