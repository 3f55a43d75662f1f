-- ===== src/Router/Ordered.antt =====
-- `select_ordered` against `select`.
use mathlib.Core.Bool.{false≢true}
use propagul.Prelude.{ℕ, ◌≡◌, ◌≢◌, refl, sym, ◌∙◌, true, some, List, [], ◌∷◌, arith, Text, In}
use propagul.Prelude.Sorting.{sort_by, insert_by, In-of_sort_by}
use propagul.Router.Fleet.{BackendTarget, nodes_with_model, nodes_by_free_vram, freer}
use propagul.Router.Select.{Router, preferred, first, choose, select, or_by_vram, select_ordered}
use propagul.Router.Choice.{preferred_asym, preferred_trans, first-sort_by-IsBest}

agree :
    (r : Router) (ts : List BackendTarget)
    → ts ≢ []
    → first (sort_by (preferred r) (or_by_vram r ts)) ≡ choose r ts
unfolding or_by_vram choose sort_by insert_by
agree r [] h = absurd (h refl)
agree r (x ∷ []) h = refl
agree r (x ∷ y ∷ ts) h = refl

-- Where some target has the model, the first of `select_ordered` is what `select` returns.
first-select_ordered :
    (r : Router) (model : Text) (now : ℕ)
    → nodes_with_model r.fleet model ≢ []
    → first (select_ordered r model now) ≡ select r model now
unfolding select_ordered select
first-select_ordered r model now some_has =
    ground (arith, agree r (nodes_with_model r.fleet model) some_has)

first_by_vram :
    (r : Router) (model : Text) (now : ℕ) (t : BackendTarget)
    → nodes_with_model r.fleet model ≡ []
    → first (select_ordered r model now) ≡ some t
    → first (sort_by (preferred r) (nodes_by_free_vram r.fleet)) ≡ some t
unfolding select_ordered or_by_vram
first_by_vram r model now t bare h = ground arith

-- Where no target has the model, `select_ordered` does not follow the free VRAM: what `select`
-- returns is not its first, if another target is preferred by its connections.
pub select_ordered-ne-select :
    (r : Router) (model : Text) (now : ℕ) (t u : BackendTarget)
    → nodes_with_model r.fleet model ≡ []
    → select r model now ≡ some t
    → In u r.fleet.targets
    → preferred r u t ≡ true
    → first (select_ordered r model now) ≢ select r model now
select_ordered-ne-select r model now t u bare chosen here better same =
    let top =
      first-sort_by-IsBest (preferred r) (preferred_asym r) (preferred_trans r)
        (nodes_by_free_vram r.fleet) t (first_by_vram r model now t bare (same ∙ chosen)) in
    false≢true (
      sym (top.1 u (unfold nodes_by_free_vram in In-of_sort_by freer u r.fleet.targets here))
      ∙ better)
