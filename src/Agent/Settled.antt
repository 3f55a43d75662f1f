-- ===== src/Agent/Settled.antt =====
-- Reconciliation reaches the desired state, and is then at rest.
use propagul.Prelude.{
  ◌≡◌, ◌≢◌, refl, sym, ap, ◌∙◌, Bool, true, false, Option, none, some, List, [], ◌∷◌, ◌++◌, arith,
  if◌then◌else◌, ite, Text, codes, dec_text, or_else, Bool-cases, if_pos,
}
use mathlib.Core.List.{append_assoc, append-nil, cons-ne-nil}
use propagul.Prelude.Finite.{member, add, discard, IsDistinct, member-add, member-discard}
use propagul.Prelude.Dict.{Dict, lookup, keys, lookup_absent}
use propagul.Agent.Reconcile.{
  Stats, Backend, Action, pull, remove, is_text, count_action, wants, run_action, act_on,
}

-- the actions that the loop takes
unfoldable pub actions : List Text → Dict Text → List (Text × Text)
actions names [] = []
actions names ((model, action) ∷ rest) =
    let more = actions names rest in
    if wants names model action then (model, action) ∷ more else more

-- one action
unfoldable pub install : Text → Text → List Text → List Text
install model action names =
    if is_text action pull then add dec_text model names else discard dec_text model names

-- what is installed after actions that all succeed
unfoldable pub installed : List (Text × Text) → List Text → List Text
installed [] names = names
installed ((model, action) ∷ rest) names = installed rest (install model action names)

-- The entries of the results name the actions, in order.
unfoldable pub named : Backend → List (Text × Text) → List Action
named backend [] = []
named backend ((model, action) ∷ rest) =
    record {
      model = model;
      action = action;
      status = or_else (backend action model) (codes "error");
    }
    ∷ named backend rest

pull-ne-remove : pull ≢ remove
pull-ne-remove h = cc

act_on_none :
    (backend : Backend) (now : List Text) (desired : Dict Text) (stats : Stats)
    → actions now desired ≡ []
    → act_on backend now desired ([], stats) ≡ ([], stats)
unfolding act_on actions
act_on_none backend now [] stats h = refl
act_on_none backend now ((model, action) ∷ rest) stats h =
    go (wants now model action) h (act_on_none backend now rest stats)
  where
    go :
        (w : Bool)
        → (if w then (model, action) ∷ actions now rest else actions now rest) ≡ []
        → (actions now rest ≡ [] → act_on backend now rest ([], stats) ≡ ([], stats))
        → act_on backend now rest
            (if w then run_action backend model action ([], stats) else ([], stats))
          ≡ ([], stats)
    go true e ih = absurd (cons-ne-nil (model, action) (actions now rest) e)
    go false e ih = ih e

results-act_on :
    (backend : Backend) (names : List Text) (desired : Dict Text) (results : List Action)
    (stats : Stats)
    → (act_on backend names desired (results, stats)).0
      ≡ results ++ named backend (actions names desired)
unfolding act_on actions named
results-act_on backend names [] results stats = sym (append-nil results)
results-act_on backend names ((model, action) ∷ rest) results stats =
    go (wants names model action) (results-act_on backend names rest)
  where
    go :
        (w : Bool)
        → ((rs : List Action) (st : Stats)
            → (act_on backend names rest (rs, st)).0 ≡ rs ++ named backend (actions names rest))
        → (act_on backend names rest
            (if w then run_action backend model action (results, stats) else (results, stats))).0
          ≡ results
            ++ named backend
                (if w then (model, action) ∷ actions names rest else actions names rest)
    go true ih =
        let entry : Action = record {
          model = model;
          action = action;
          status = or_else (backend action model) (codes "error");
        } in
        ih (results ++ (entry ∷ [])) (count_action action (backend action model) stats)
        ∙ append_assoc results (entry ∷ []) (named backend (actions names rest))
    go false ih = ih results stats

member-install :
    (model action m : Text) (names : List Text)
    → member dec_text m (install model action names)
      ≡ ite (dec_text model m) (is_text action pull) (member dec_text m names)
unfolding install
member-install model action m names =
    ground (arith, member-add dec_text model m names, member-discard dec_text model m names)

-- what becomes of a model
outcome : List Text → List Text → Text → Option Text → Bool
outcome names now m none = member dec_text m now
outcome names now m (some action) =
    if wants names m action then is_text action pull else member dec_text m now

member-installed-actions :
    (names now : List Text) (desired : Dict Text) (m : Text)
    → IsDistinct dec_text (keys desired)
    → member dec_text m (installed (actions names desired) now)
      ≡ outcome names now m (lookup m desired)
unfolding actions installed outcome lookup
member-installed-actions names now [] m d = refl
member-installed-actions names now ((model, action) ∷ rest) m d =
    go (wants names model action) refl (λ at. member-installed-actions names at rest m d.1)
  where
    go :
        (w : Bool)
        → wants names model action ≡ w
        → ((at : List Text)
            → member dec_text m (installed (actions names rest) at)
              ≡ outcome names at m (lookup m rest))
        → member dec_text m
            (installed (if w then (model, action) ∷ actions names rest else actions names rest) now)
          ≡ outcome names now m (lookup m ((model, action) ∷ rest))
    go true h ih = ground (
      arith,
      h,
      ih (install model action now),
      member-install model action m now,
      lookup_absent model rest d.0,
    )
    go false h ih = ground (arith, h, ih now, lookup_absent model rest d.0)

wants-outcome :
    (names now : List Text) (m action : Text)
    → member dec_text m now ≡ outcome names names m (some action)
    → wants now m action ≡ false
unfolding wants outcome
wants-outcome names now m action h =
    ground (arith, h, Bool-cases (member dec_text m names), Bool-cases (member dec_text m now))

actions_none :
    (now : List Text) (desired : Dict Text)
    → ((m action : Text) → lookup m desired ≡ some action → wants now m action ≡ false)
    → IsDistinct dec_text (keys desired)
    → actions now desired ≡ []
unfolding actions lookup
actions_none now [] h d = refl
actions_none now ((model, action) ∷ rest) h d = ground (
  arith,
  h model action (if_pos (dec_text model model) refl (some action) (lookup model rest)),
  actions_none now rest (λ m a e. h m a (ground (arith, e, lookup_absent model rest d.0))) d.1,
)

-- whether a model is to be there
abbrev pub wished : Option Text → Bool → Bool
wished none there = there
wished (some action) there =
    if is_text action pull then true else if is_text action remove then false else there

outcome-wished :
    (names : List Text) (m : Text) (o : Option Text)
    → outcome names names m o ≡ wished o (member dec_text m names)
unfolding outcome wants
outcome-wished names m none = refl
outcome-wished names m (some action) =
    ground (arith, Bool-cases (member dec_text m names), pull-ne-remove)

-- The results of the loop are one entry for each action, in order. If the desired models are
-- distinct, then once these actions have been carried out a desired model is there if it is to be
-- pulled and not if it is to be deleted, any other is as it was, and the loop does nothing more.
pub act_on-IsSettled :
    (backend : Backend) (names : List Text) (desired : Dict Text) (stats later : Stats)
    → IsDistinct dec_text (keys desired)
    → (act_on backend names desired ([], stats)).0 ≡ named backend (actions names desired)
      × ((m : Text)
          → member dec_text m (installed (actions names desired) names)
            ≡ wished (lookup m desired) (member dec_text m names))
      × act_on backend (installed (actions names desired) names) desired ([], later) ≡ ([], later)
act_on-IsSettled backend names desired stats later d = (
  results-act_on backend names desired [] stats,
  λ m. member-installed-actions names names desired m d ∙ outcome-wished names m (lookup m desired),
  act_on_none backend (installed (actions names desired) names) desired later (
      actions_none (installed (actions names desired) names) desired
        (λ m action e.
          wants-outcome names (installed (actions names desired) names) m action
            (member-installed-actions names names desired m d ∙ ap (outcome names names m) e))
        d),
)
