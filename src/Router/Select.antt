-- ===== src/Router/Select.antt =====
-- python/propagul/mesh/router.py: `RequestRouter`.
use propagul.Prelude.{
  ℕ, Bool, true, false, ◌||◌, Option, none, some, List, [], ◌∷◌, if◌then◌else◌, ite, ltb, ◌==◌,
  Text, dec_text,
}
use propagul.Prelude.Sorting.{sort_by}
use propagul.Router.Tracker.{Tracker, count}
use propagul.Router.Fleet.{
  BackendTarget, FleetState, is_stale, nodes_with_model, nodes_by_free_vram,
}

pub record Router : Type 0 where
  pub fleet : FleetState
  pub local_node_id : Text
  pub tracker : Tracker

-- the second part of `sort_key`
unfoldable pub is_remote : Router → BackendTarget → ℕ
is_remote r t = ite (dec_text t.node_id r.local_node_id) 0 1

-- `sort_key(t) < sort_key(u)`
unfoldable pub preferred : Router → BackendTarget → BackendTarget → Bool
preferred r t u =
    let a = count r.tracker t.node_id in
    let b = count r.tracker u.node_id in
    if a == b then ltb (is_remote r t) (is_remote r u) else ltb a b

-- `candidates[0]`, if there is one
abbrev pub first : List BackendTarget → Option BackendTarget
first [] = none
first (t ∷ ts) = some t

abbrev pub no_targets : List BackendTarget → Bool
no_targets [] = true
no_targets (t ∷ ts) = false

-- what `select` does with the candidates that have the model
unfoldable pub choose : Router → List BackendTarget → Option BackendTarget
choose r [] = first (nodes_by_free_vram r.fleet)
choose r (t ∷ []) = some t
choose r (t ∷ u ∷ ts) = first (sort_by (preferred r) (t ∷ u ∷ ts))

unfoldable pub select : Router → Text → ℕ → Option BackendTarget
select r model now =
    if is_stale r.fleet now || no_targets r.fleet.targets
    then none
    else choose r (nodes_with_model r.fleet model)

-- `if not candidates: candidates = nodes_by_free_vram()`
unfoldable pub or_by_vram : Router → List BackendTarget → List BackendTarget
or_by_vram r [] = nodes_by_free_vram r.fleet
or_by_vram r (t ∷ ts) = t ∷ ts

unfoldable pub select_ordered : Router → Text → ℕ → List BackendTarget
select_ordered r model now =
    if is_stale r.fleet now || no_targets r.fleet.targets
    then []
    else sort_by (preferred r) (or_by_vram r (nodes_with_model r.fleet model))
