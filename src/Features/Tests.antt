-- ===== src/Features/Tests.antt =====
-- A registry with one experimental feature.
use adk_js.Prelude.{
  ◌≡◌, refl, ◌⊎◌, String, Bool, true, false, not, ◌&&◌, ◌||◌, Option, none, some, [], ◌∷◌, str_eq,
  if◌then◌else◌,
}
use Prim.Native.String.{◌++◌ as str_append}
use adk_js.Prelude.Dict.{lookup, put}
use adk_js.Features.{
  Registry, FeatureConfig, experimental, get_feature_config, get_boolean_env_var,
  is_feature_enabled, with_temporary_feature_override,
}
use adk_js.Features.Overrides.{
  IsWarnedOnce, is_feature_enabled_lem, with_temporary_feature_override_lem,
}

abbrev streaming : FeatureConfig
streaming = record { stage = experimental; default_on = false }

abbrev registry : Registry
registry = record {
  features = ("SSE", streaming) ∷ [];
  overrides = ("SSE", true) ∷ [];
  warned = [];
  logged = [];
}

abbrev no_env : String → Option String
no_env name = none

abbrev same_case : String → String
same_case s = s

enabled_and_warned :
    is_feature_enabled no_env same_case registry "SSE"
    ≡ some (record registry { warned = "SSE" ∷ []; logged = "SSE" ∷ [] }, true)
unfolding is_feature_enabled
enabled_and_warned = refl

is_feature_enabled_lem_example :
    ((get_feature_config registry "SSE" ≡ none)
      × (is_feature_enabled no_env same_case registry "SSE" ≡ none))
    ⊎ ((config : FeatureConfig) × (r' : Registry) × (enabled : Bool) × (get_feature_config registry
            "SSE"
          ≡ some config)
        × (is_feature_enabled no_env same_case registry "SSE" ≡ some (r', enabled))
        × (enabled ≡ (elim (lookup "SSE" registry.overrides) as (λ _. Bool) [
          | some b ↦ b
          | none ↦
              get_boolean_env_var no_env same_case (str_append "ADK_ENABLE_" "SSE")
              || (not (get_boolean_env_var no_env same_case (str_append "ADK_DISABLE_" "SSE"))
                  && config.default_on)
        ]))
        × IsWarnedOnce r')
is_feature_enabled_lem_example = is_feature_enabled_lem no_env same_case registry "SSE" (refl, tt)

abbrev forget : Registry → Registry × String
forget r = (record r { overrides = [] }, "done")

config_of : get_feature_config registry "SSE" ≡ some streaming
unfolding get_feature_config
config_of = refl

with_temporary_feature_override_lem_example :
    let inside = forget (record registry { overrides = put "SSE" false registry.overrides }) in
    (after : Registry) × (with_temporary_feature_override registry "SSE" false forget
      ≡ some (after, inside.1))
    × (lookup "SSE" after.overrides ≡ (
        if str_eq "SSE" "SSE"
        then lookup "SSE" registry.overrides
        else lookup "SSE" inside.0.overrides))
with_temporary_feature_override_lem_example =
    with_temporary_feature_override_lem registry "SSE" false forget streaming "SSE" config_of
