-- ===== src/Router/Fleet.antt =====
-- python/propagul/mesh/router.py: `BackendTarget`, `FleetState` and the routing table. Times are whole
-- milliseconds and VRAM whole units of a fixed size, where the source has floats.
use propagul.Prelude.{
  ℕ, ◌+◌, ◌*◌, Bool, true, List, [], if◌then◌else◌, ltb, ◌==◌, Text, dec_text, ℤ, ltb_ℤ, keep,
}
use propagul.Prelude.Finite.{member}
use propagul.Prelude.Sorting.{sort_by}

pub record BackendTarget : Type 0 where
  pub node_id : Text
  pub backend_name : Text
  pub backend_url : Text
  pub models : List Text
  pub free_vram : ℤ
  pub backend_auth : Text

unfoldable pub has_model : BackendTarget → Text → Bool
has_model t model = member dec_text model t.models

pub record FleetState : Type 0 where
  pub targets : List BackendTarget
  pub updated_at : ℕ

abbrev pub initial : FleetState
initial = record { targets = []; updated_at = 0 }

-- `update`, with the time that the clock shows
unfoldable pub update : FleetState → List BackendTarget → ℕ → FleetState
update fleet targets now = record { targets = targets; updated_at = now }

-- `is_stale`: never updated, or an age above 60 seconds
unfoldable pub is_stale : FleetState → ℕ → Bool
is_stale fleet now = if fleet.updated_at == 0 then true else ltb (fleet.updated_at + 60 * 1000) now

unfoldable pub nodes_with_model : FleetState → Text → List BackendTarget
nodes_with_model fleet model = keep (λ t. has_model t model) fleet.targets

-- most free VRAM first; equals keep their order
abbrev pub freer : BackendTarget → BackendTarget → Bool
freer t u = ltb_ℤ u.free_vram t.free_vram

unfoldable pub nodes_by_free_vram : FleetState → List BackendTarget
nodes_by_free_vram fleet = sort_by freer fleet.targets
