-- ===== src/Agent/Settings.antt =====
-- python/propagul/mesh/agent.py: `_apply_fleet_settings`, and what proxy.py makes of them.
use propagul.Prelude.{
  Bool, ◌&&◌, not, Option, none, some, [], ◌∷◌, if◌then◌else◌, Text, codes, ℤ, pos, ltb_ℤ,
}
use propagul.Prelude.Dict.{Dict, lookup, insert}
use propagul.Config.Defs.{FleetConfigMap}
use propagul.Config.Tables.{get_fleet_setting, get_all_model_settings, is_blank}
use propagul.Agent.Numbers.{Decimal, read_int, is_duration}

-- the fields of `ProxyConfig` that the agent sets
pub record ProxySettings : Type 0 where
  pub ollama_keep_alive : Option Text
  pub default_num_ctx : Option ℤ
  pub model_num_ctx_overrides : Dict ℤ

unfoldable pub keep_alive_of : Decimal → Option Text → Option Text
keep_alive_of decimal none = none
keep_alive_of decimal (some v) =
    if is_blank v then none else if is_duration decimal v then some v else none

-- 512 <= n <= 262144
abbrev pub in_range : ℤ → Bool
in_range n = not (ltb_ℤ n (pos 512)) && not (ltb_ℤ (pos 262144) n)

unfoldable pub num_ctx_of : Decimal → Option Text → Option ℤ
num_ctx_of decimal none = none
num_ctx_of decimal (some raw) = elim (read_int decimal raw) [
  | none ↦ none
  | some n ↦ if in_range n then some n else none
]

-- the fleet's default, for which a blank text is no error
unfoldable pub default_num_ctx_of : Decimal → Option Text → Option ℤ
default_num_ctx_of decimal none = none
default_num_ctx_of decimal (some raw) = if is_blank raw then none else num_ctx_of decimal (some raw)

abbrev pub put_override : Text → Option ℤ → Dict ℤ → Dict ℤ
put_override model none overrides = overrides
put_override model (some n) overrides = insert model n overrides

unfoldable pub collect_overrides : Decimal → Dict (Dict Text) → Dict ℤ → Dict ℤ
collect_overrides decimal [] overrides = overrides
collect_overrides decimal ((model, settings) ∷ rest) overrides =
    collect_overrides decimal rest
      (put_override model (num_ctx_of decimal (lookup (codes "num_ctx") settings)) overrides)

unfoldable pub apply_fleet_settings :
    Decimal → FleetConfigMap → Option ProxySettings → Option ProxySettings
apply_fleet_settings decimal c none = none
apply_fleet_settings decimal c (some p) = some (record {
  ollama_keep_alive = keep_alive_of decimal (get_fleet_setting c (codes "ollama_keep_alive"));
  default_num_ctx =
      default_num_ctx_of decimal (get_fleet_setting c (codes "default_context_length"));
  model_num_ctx_overrides = collect_overrides decimal (get_all_model_settings c) [];
})

-- proxy.py, `_resolve_num_ctx`
unfoldable pub resolve_num_ctx : ProxySettings → Text → Option ℤ
resolve_num_ctx p model = elim (lookup model p.model_num_ctx_overrides) [
  | some n ↦ some n
  | none ↦ p.default_num_ctx
]
