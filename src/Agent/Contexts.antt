-- ===== src/Agent/Contexts.antt =====
-- The context length that the proxy uses for a model is what the fleet's configuration says.
use propagul.Prelude.{
  ◌<◌, ◌≡◌, refl, ap, Option, none, some, [], ◌∷◌, arith, ite, Text, codes, dec_text, ℤ, length,
  inl, inr, Option-cases,
}
use propagul.Prelude.Finite.{IsDistinct}
use propagul.Prelude.Dict.{lookup_absent, Dict, lookup, keys, lookup-insert}
use propagul.Config.Defs.{FleetConfigMap}
use propagul.Config.Tables.{get_all_model_settings, get_model_setting, get_fleet_setting}
use propagul.Config.ModelSettings.{
  SplitsAt, lookup2, lookup2-get_all_model_settings, get_all_model_settings-IsDistinct,
}
use propagul.Agent.Numbers.{Decimal}
use propagul.Agent.Settings.{
  ProxySettings, num_ctx_of, default_num_ctx_of, put_override, collect_overrides,
  apply_fleet_settings, resolve_num_ctx,
}

-- the first that is there
abbrev pub or_default : Option ℤ → Option ℤ → Option ℤ
or_default none d = d
or_default (some n) d = some n

lookup-put_override :
    (model m : Text) (o : Option ℤ) (acc : Dict ℤ)
    → lookup model (put_override m o acc)
      ≡ ite (dec_text m model) (or_default o (lookup model acc)) (lookup model acc)
lookup-put_override model m none acc = ground arith
lookup-put_override model m (some n) acc = lookup-insert m model n acc

override_in : Decimal → Text → Dict (Dict Text) → Option ℤ
override_in decimal model settings = elim (lookup model settings) [
  | none ↦ none
  | some table ↦ num_ctx_of decimal (lookup (codes "num_ctx") table)
]

lookup-collect_overrides :
    (decimal : Decimal) (model : Text) (settings : Dict (Dict Text)) (acc : Dict ℤ)
    → IsDistinct dec_text (keys settings)
    → lookup model (collect_overrides decimal settings acc)
      ≡ or_default (override_in decimal model settings) (lookup model acc)
unfolding collect_overrides override_in lookup
lookup-collect_overrides decimal model [] acc d = refl
lookup-collect_overrides decimal model ((m, table) ∷ rest) acc d = ground (
  arith,
  lookup-collect_overrides decimal model rest
      (put_override m (num_ctx_of decimal (lookup (codes "num_ctx") table)) acc) d.1,
  lookup-put_override model m (num_ctx_of decimal (lookup (codes "num_ctx") table)) acc,
  lookup_absent m rest d.0,
)

override_of_setting :
    (decimal : Decimal) (model : Text) (d : Dict (Dict Text))
    → override_in decimal model d ≡ num_ctx_of decimal (lookup2 model (codes "num_ctx") d)
unfolding override_in lookup2 num_ctx_of
override_of_setting decimal model d = elim (Option-cases (lookup model d)) [
  | inl e ↦ ground (arith, e)
  | inr (table, e) ↦ ground (arith, e)
]

-- After the fleet's settings are applied, the proxy uses for a model the context length that is set
-- for it, where that is a number in range, and else the fleet's default, where that is one. The
-- model's name is not empty, and the separator occurs first where name and key are joined.
pub resolve_num_ctx-apply_fleet_settings :
    (decimal : Decimal) (c : FleetConfigMap) (p : ProxySettings) (model : Text)
    → 0 < length model
    → SplitsAt model (codes "num_ctx")
    → (p' : ProxySettings) × ((apply_fleet_settings decimal c (some p) ≡ some p')
        × (resolve_num_ctx p' model
            ≡ or_default (num_ctx_of decimal (get_model_setting c model (codes "num_ctx"))) (
                default_num_ctx_of decimal (get_fleet_setting c (codes "default_context_length")))))
unfolding apply_fleet_settings resolve_num_ctx lookup
resolve_num_ctx-apply_fleet_settings decimal c p model h split = (
  _,
  (
    refl,
    ground (
      arith,
      lookup-collect_overrides decimal model (get_all_model_settings c) []
          (get_all_model_settings-IsDistinct c),
      override_of_setting decimal model (get_all_model_settings c),
      ap (num_ctx_of decimal) (lookup2-get_all_model_settings model (codes "num_ctx") c h split),
    ),
  ),
)
