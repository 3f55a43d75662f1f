-- ===== src/Agent/Unpushed.antt =====
-- An agent without entries does not tell the dashboard what it has deleted.
use propagul.Prelude.{
  ◌≡◌, refl, ap, ◌∙◌, Bool, true, false, ◌||◌, Option, none, some, List, [], ◌∷◌, arith,
  if◌then◌else◌, Text, or_else,
}
use propagul.Prelude.Dict.{Dict, lookup, AllValues}
use propagul.Json.{Json}
use propagul.Crdt.Defs.{Caps, Tag, Entry, OrMap}
use propagul.Crdt.Invariant.{IsValid, IsHeld}
use propagul.Crdt.View.{view, is_dead}
use propagul.Crdt.View.Remote.{value_of, prefer}
use propagul.Crdt.View.Snapshots.{sync, Room, view-sync}
use propagul.Crdt.View.Converge.{sync-IsValid}
use propagul.Config.Defs.{FleetConfigMap}
use propagul.Agent.Reconcile.{Stats}
use propagul.Agent.Sync.{
  Dashboard, SyncCalls, sync_body, pull_config, push_config, pushed, sync_config,
}
use propagul.Agent.Exchange.{pulls, pulled_from, crdt-pulled_from}

entries_none :
    (caps : Caps) (m : OrMap)
    → IsValid caps m
    → ((key : Text) (t : Tag) → view m key t ≡ none)
    → m.entries ≡ []
unfolding view lookup value_of
entries_none caps m v h = go m.entries v.at_key (λ key t. h key t)
  where
    go :
        (d : Dict (List Entry))
        → AllValues (IsHeld caps) d
        → ((key : Text) (t : Tag) → value_of t (or_else (lookup key d) []) ≡ none)
        → d ≡ []
    go [] held h = refl
    go ((key, []) ∷ d) held h = absurd (held.0.held refl)
    go ((key, e ∷ es) ∷ d) held h = ground (arith, h key e.tag)

view-none : (m : OrMap) (key : Text) (t : Tag) → m.entries ≡ [] → view m key t ≡ none
unfolding view lookup value_of
view-none m key t e = ap (λ (d : Dict (List Entry)). value_of t (or_else (lookup key d) [])) e

-- A dashboard whose entries all stand under tags that an agent with an API key and no entry knows
-- to be dead is not told: where the dashboard answers with its snapshot, no cap is met and both
-- maps are valid, the agent has no entry after the exchange, and whatever the dashboard does with
-- a push, the exchange is the same.
pub sync_config-unpushed :
    (caps : Caps) (calls : SyncCalls) (dashboard : Dashboard) (other : Json → Option Json)
    (c : FleetConfigMap) (stats : Stats) (s : OrMap)
    → IsValid caps c.crdt
    → IsValid caps s
    → Room caps c.crdt s
    → c.crdt.entries ≡ []
    → ((key : Text) (t : Tag) → is_dead c.crdt t ≡ false → view s key t ≡ none)
    → dashboard.answer ≡ some (sync_body s)
    → ((sync_config caps calls true dashboard (c, stats)).0.crdt.entries ≡ [])
      × (sync_config caps calls true (record dashboard { sync = other }) (c, stats)
          ≡ sync_config caps calls true dashboard (c, stats))
unfolding sync_config pushed push_config
sync_config-unpushed caps calls dashboard other c stats s vc vs room none_here dead answer =
    let at : pull_config caps calls.at_pull c dashboard.answer
        ≡ some (pulled_from caps calls.at_pull c s) =
      ap (pull_config caps calls.at_pull c) answer ∙ pulls caps calls.at_pull c s in
    let empty : (sync caps c.crdt s).entries ≡ [] =
      entries_none caps (sync caps c.crdt s) (sync-IsValid caps c.crdt s vc) (λ key t.
        view-sync caps c.crdt s vc vs room key t
        ∙ join_none (is_dead c.crdt t) (is_dead s t) (view c.crdt key t) (view s key t)
            (view-none c.crdt key t none_here) (dead key t)) in
    let shut : (pulled_from caps calls.at_pull c s).crdt.entries ≡ [] =
      ap (λ (m : OrMap). m.entries) (crdt-pulled_from caps calls.at_pull c s) ∙ empty in
    rw at (rw shut (shut, refl))
  where
    join_none :
        (a b : Bool) (o p : Option Text)
        → o ≡ none
        → (a ≡ false → p ≡ none)
        → (if a || b then none else prefer o p) ≡ none
    join_none true b o p e h = ground arith
    join_none false b o p e h = ground (arith, h refl)
