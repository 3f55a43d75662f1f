-- ===== src/Agent/ReadOnly.antt =====
-- A backend that is not Ollama is never sent a command.
use propagul.Prelude.{
  ℕ, ◌+◌, ◌<◌, ◌≡◌, ◌≢◌, refl, true, false, Option, none, some, List, [], ◌∷◌, arith, if◌then◌else◌,
  Text, codes, dec_text, length, Bool-cases, inl, inr,
}
use propagul.Prelude.Finite.{add}
use propagul.Agent.Reconcile.{Backend, is_text}
use propagul.Agent.Commands.{
  Command, Worker, Callback, callback_raises, ollama, inference, cancel_pull, execute,
  finish_command, execute_all,
}

-- what the callback is told of a command on such a backend
abbrev pub result_of : Command → Option Text
result_of c = if is_text c.command cancel_pull then none else some (codes "error")

-- the commands that are executed: all but inferences, up to the first for which the callback raises
unfoldable pub executed : Callback → List Command → ℕ
executed callback [] = 0
executed callback (c ∷ rest) =
    let more = executed callback rest in
    if is_text c.command inference
    then more
    else if callback_raises callback c (result_of c)
    then 1
    else more + 1

-- the command is refused, or marks a model as cancelled
unfoldable pub refused : Callback → Command → Worker → Worker
refused callback c w =
    if is_text c.command cancel_pull
    then (finish_command callback c
        (none, record w { cancel_pulls = add dec_text c.model w.cancel_pulls })).0
    else (finish_command callback c (some (codes "error"), w)).0

refused-keeps :
    (callback : Callback) (c : Command) (w : Worker)
    → ((refused callback c w).started ≡ w.started)
      × ((refused callback c w).stats.commands ≡ w.stats.commands + 1)
unfolding refused finish_command
refused-keeps callback c w = ground arith

execute-refused :
    (backend : Backend) (callback : Callback) (name url : Text) (c : Command) (rest : List Command)
    (w : Worker)
    → name ≢ ollama
    → 0 < length url
    → is_text c.command inference ≡ false
    → execute_all backend callback (name, url) (c ∷ rest) w ≡ (
        if callback_raises callback c (result_of c)
        then refused callback c w
        else execute_all backend callback (name, url) rest (refused callback c w))
unfolding execute_all execute refused finish_command
execute-refused backend callback name url c rest w other some_url h =
    ground (arith, other, some_url, h)

execute-ignored :
    (backend : Backend) (callback : Callback) (at : Text × Text) (c : Command) (rest : List Command)
    (w : Worker)
    → is_text c.command inference ≡ true
    → execute_all backend callback at (c ∷ rest) w ≡ execute_all backend callback at rest w
unfolding execute_all
execute-ignored backend callback at c rest w h = ground (arith, h)

execute_all_nil :
    (backend : Backend) (callback : Callback) (at : Text × Text) (w : Worker)
    → execute_all backend callback at [] w ≡ w
unfolding execute_all
execute_all_nil backend callback at w = refl

-- On a backend that has a URL and is not Ollama no command starts a pull, every command but an
-- inference is counted, up to the first for which the callback raises, if it does, and the state
-- after the commands is the same whatever Ollama would answer.
pub execute_all-IsReadOnly :
    (backend other : Backend) (callback : Callback) (name url : Text) (commands : List Command)
    (w : Worker)
    → name ≢ ollama
    → 0 < length url
    → ((execute_all backend callback (name, url) commands w).started ≡ w.started)
      × ((execute_all backend callback (name, url) commands w).stats.commands
          ≡ w.stats.commands + executed callback commands)
      × (execute_all backend callback (name, url) commands w
          ≡ execute_all other callback (name, url) commands w)
unfolding executed
execute_all-IsReadOnly backend other callback name url [] w n u = ground (
  arith,
  execute_all_nil backend callback (name, url) w,
  execute_all_nil other callback (name, url) w,
)
execute_all-IsReadOnly backend other callback name url (c ∷ rest) w n u =
    elim (Bool-cases (is_text c.command inference)) [
      | inl h ↦ ground (
        arith,
        h,
        execute-ignored backend callback (name, url) c rest w h,
        execute-ignored other callback (name, url) c rest w h,
        execute_all-IsReadOnly backend other callback name url rest w n u,
      )
      | inr h ↦ ground (
        arith,
        h,
        execute-refused backend callback name url c rest w n u h,
        execute-refused other callback name url c rest w n u h,
        refused-keeps callback c w,
        execute_all-IsReadOnly backend other callback name url rest (refused callback c w) n u,
      )
    ]
