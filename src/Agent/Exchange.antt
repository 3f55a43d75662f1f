-- ===== src/Agent/Exchange.antt =====
-- After an exchange with the dashboard the agent holds what the dashboard holds.
use propagul.Prelude.{
  ◌<◌, ◌≡◌, refl, sym, ap, ◌∙◌, Bool, true, ◌||◌, Option, none, some, [], ◌∷◌, arith, if◌then◌else◌,
  Text, codes, dec_text, ltb, length, subst, or_else,
}
use propagul.Prelude.Dict.{lookup}
use propagul.Json.{Json, as_dict, as_dict-dict}
use propagul.Crdt.Defs.{Caps, OrMap}
use propagul.Crdt.Merge.{get_field, merge, snapshot, snapshot_dict}
use propagul.Crdt.Invariant.{IsValid}
use propagul.Crdt.View.{view, is_dead}
use propagul.Crdt.View.Remote.{prefer}
use propagul.Crdt.View.Snapshots.{sync, Room, view-sync, is_dead-sync}
use propagul.Crdt.View.Converge.{SameView, Agree, sync-IsValid}
use propagul.Config.Defs.{FleetConfigMap, Call, merge_config, save_merged, auto_save, save_to_disk}
use propagul.Agent.Reconcile.{Stats}
use propagul.Agent.Sync.{
  Dashboard, SyncCalls, sync_body, merge_answer, merge_response, pull_config, push_config, pushed,
  sync_config,
}

-- An exchange with a third map through its server: the first merges its snapshot, the server that
-- of the first, and the first what the server then holds.
module _ (caps : Caps) (m s : OrMap) (m_valid : IsValid caps m) (s_valid : IsValid caps s)
    (agree : Agree m s) (first : Room caps m s) (second : Room caps s (sync caps m s))
    (third : Room caps (sync caps m s) (sync caps s (sync caps m s))) where
  exchanged-SameView :
      SameView
        (sync caps (sync caps m s) (sync caps s (sync caps m s)))
        (sync caps s (sync caps m s))
  exchanged-SameView = record {
    views = λ key t.
        view-sync caps pulled server pulled_valid server_valid third key t
        ∙ same (is_dead m t) (is_dead s t) (is_dead pulled t) (is_dead server t) (view m key t)
            (view s key t) (view pulled key t) (view server key t) (agree key t)
            (is_dead-sync caps m s m_valid s_valid first t)
            (is_dead-sync caps s pulled s_valid pulled_valid second t)
            (view-sync caps m s m_valid s_valid first key t)
            (view-sync caps s pulled s_valid pulled_valid second key t);
    deads = λ t. ground (
      arith,
      is_dead-sync caps m s m_valid s_valid first t,
      is_dead-sync caps s pulled s_valid pulled_valid second t,
      is_dead-sync caps pulled server pulled_valid server_valid third t,
    );
  }
    where
      pulled : OrMap
      pulled = sync caps m s

      server : OrMap
      server = sync caps s (sync caps m s)

      pulled_valid : IsValid caps (sync caps m s)
      pulled_valid = sync-IsValid caps m s m_valid

      server_valid : IsValid caps (sync caps s (sync caps m s))
      server_valid = sync-IsValid caps s (sync caps m s) s_valid

      same :
          (a b c d : Bool) (o p q r : Option Text)
          → ((v w : Text) → o ≡ some v → p ≡ some w → v ≡ w)
          → c ≡ (a || b)
          → d ≡ (b || c)
          → q ≡ (if a || b then none else prefer o p)
          → r ≡ (if b || c then none else prefer p q)
          → (if c || d then none else prefer q r) ≡ r
      same a b c d none none q r h e₁ e₂ e₃ e₄ = ground arith
      same a b c d none (some w) q r h e₁ e₂ e₃ e₄ = ground arith
      same a b c d (some v) none q r h e₁ e₂ e₃ e₄ = ground arith
      same a b c d (some v) (some w) q r h e₁ e₂ e₃ e₄ = ground (arith, h v w refl refl)

crdt-auto_save : (call : Call) (c : FleetConfigMap) → (auto_save call c).crdt ≡ c.crdt
unfolding auto_save save_to_disk
crdt-auto_save call c = ground arith

pub crdt-merge_config :
    (caps : Caps) (call : Call) (c : FleetConfigMap) (remote : Json)
    → (merge_config caps call c remote).0.crdt ≡ (merge caps c.crdt remote).0
unfolding merge_config save_merged
crdt-merge_config caps call c remote =
    let merged = merge caps c.crdt remote in
    ground (arith, crdt-auto_save call (record c { crdt = merged.0 }))

as_dict-snapshot : (s : OrMap) → as_dict (snapshot s) ≡ some (snapshot_dict s)
unfolding snapshot
as_dict-snapshot s = as_dict-dict (snapshot_dict s)

-- An answer that holds a snapshot is merged.
pub pulls :
    (caps : Caps) (call : Call) (c : FleetConfigMap) (s : OrMap)
    → pull_config caps call c (some (sync_body s)) ≡ some (merge_config caps call c (snapshot s)).0
unfolding pull_config merge_response merge_answer get_field lookup dec_text
pulls caps call c s =
    ap (merge_response caps call c) (as_dict-dict ((codes "snapshot", snapshot s) ∷ []))
    ∙ ap (λ o. some (merge_answer caps call c (snapshot s) o)) (as_dict-snapshot s)

-- The configuration that an agent has pulled from the snapshot of a map.
abbrev pub pulled_from : Caps → Call → FleetConfigMap → OrMap → FleetConfigMap
pulled_from caps call c s = (merge_config caps call c (snapshot s)).0

pub crdt-pulled_from :
    (caps : Caps) (call : Call) (c : FleetConfigMap) (s : OrMap)
    → (pulled_from caps call c s).crdt ≡ sync caps c.crdt s
unfolding sync
crdt-pulled_from caps call c s = crdt-merge_config caps call c (snapshot s)

crdt-push_config :
    (caps : Caps) (call : Call) (dashboard : Dashboard) (c : FleetConfigMap) (l s : OrMap)
    → c.crdt ≡ l
    → dashboard.sync (sync_body l) ≡ some (sync_body s)
    → 0 < length l.entries
    → (push_config caps call dashboard c).crdt ≡ sync caps l s
unfolding push_config sync
crdt-push_config caps call dashboard c l s same answer some_entry =
    let sent : dashboard.sync (sync_body c.crdt) ≡ some (sync_body s) =
      ap (λ m. dashboard.sync (sync_body m)) same ∙ answer in
    let opened : ltb 0 (length c.crdt.entries) ≡ true =
      ground (arith, ap (λ (m : OrMap). length m.entries) same) in
    rw opened (
      ap (λ (o : Option Json). (or_else (pull_config caps call c o) c).crdt) sent
      ∙ ap (λ (o : Option FleetConfigMap). (or_else o c).crdt) (pulls caps call c s)
      ∙ crdt-pulled_from caps call c s
      ∙ ap (λ m. sync caps m s) same)

-- An exchange in which the dashboard answers with the snapshot of its map, and then with that of
-- its map after it has merged what the agent sent, ends with the merge of the latter.
crdt-sync_config :
    (caps : Caps) (calls : SyncCalls) (dashboard : Dashboard) (c : FleetConfigMap) (stats : Stats)
    (s : OrMap)
    → dashboard.answer ≡ some (sync_body s)
    → dashboard.sync (sync_body (sync caps c.crdt s))
      ≡ some (sync_body (sync caps s (sync caps c.crdt s)))
    → 0 < length (sync caps c.crdt s).entries
    → (sync_config caps calls true dashboard (c, stats)).0.crdt
      ≡ sync caps (sync caps c.crdt s) (sync caps s (sync caps c.crdt s))
unfolding sync_config pushed push_config sync merge_config
crdt-sync_config caps calls dashboard c stats s answer response some_entry =
    ap
      (λ (o : Option FleetConfigMap).
        (pushed caps calls.at_push dashboard stats (c, stats) o).0.crdt)
      (ap (pull_config caps calls.at_pull c) answer ∙ pulls caps calls.at_pull c s)
    ∙ crdt-push_config caps calls.at_push dashboard (pulled_from caps calls.at_pull c s)
        (sync caps c.crdt s) (sync caps s (sync caps c.crdt s))
        (crdt-pulled_from caps calls.at_pull c s) response some_entry

-- The dashboard answers an exchange as it promises: with the snapshot of its map, and then with
-- that of its map after it has merged what the agent sent.
pub record Answers (caps : Caps) (dashboard : Dashboard) (m s : OrMap) : Type 0 where
  pub pulled : dashboard.answer ≡ some (sync_body s)
  pub pushed :
      dashboard.sync (sync_body (sync caps m s)) ≡ some (sync_body (sync caps s (sync caps m s)))

-- The maps of an exchange meet no cap and agree on shared tags.
pub record Exchanges (caps : Caps) (m s : OrMap) : Type 0 where
  pub m_valid : IsValid caps m
  pub s_valid : IsValid caps s
  pub agree : Agree m s
  pub first : Room caps m s
  pub second : Room caps s (sync caps m s)
  pub third : Room caps (sync caps m s) (sync caps s (sync caps m s))

-- After an exchange of an agent that has an API key with a dashboard that answers as it promises,
-- where no cap is met, both maps are valid and agree on shared tags, and the agent has an entry
-- to push, the agent holds the same values under the same tags as the dashboard, and the same
-- dead tags.
pub sync_config-SameView :
    (caps : Caps) (calls : SyncCalls) (dashboard : Dashboard) (c : FleetConfigMap) (stats : Stats)
    (s : OrMap)
    → Answers caps dashboard c.crdt s
    → Exchanges caps c.crdt s
    → 0 < length (sync caps c.crdt s).entries
    → SameView
        (sync_config caps calls true dashboard (c, stats)).0.crdt
        (sync caps s (sync caps c.crdt s))
sync_config-SameView caps calls dashboard c stats s a x e =
    subst (λ m. SameView m (sync caps s (sync caps c.crdt s)))
      (sym (crdt-sync_config caps calls dashboard c stats s a.pulled a.pushed e))
      (exchanged-SameView caps c.crdt s x.m_valid x.s_valid x.agree x.first x.second x.third)
