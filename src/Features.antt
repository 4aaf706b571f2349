-- ===== src/Features.antt =====
-- core/src/features/feature_registry.ts: features, their stages and defaults, and what overrides them.
-- The module's state is passed along, with the warnings that it logged. A feature's name is a text;
-- the environment and the mapping of a text to lower case are parameters.
pub mod Overrides
mod Tests
use adk_js.Prelude.{
  String, Bool, true, false, not, ◌&&◌, ◌||◌, Option, none, some, List, [], ◌∷◌, str_eq,
  if◌then◌else◌,
}
use Prim.Native.String.{◌++◌ as str_append}
use adk_js.Prelude.Dict.{Dict, lookup, put, remove, has}
use adk_js.Prelude.Names.{contains}

pub data FeatureStage : Type 0 where
  wip : FeatureStage
  experimental : FeatureStage
  stable : FeatureStage

pub record FeatureConfig : Type 0 where
  pub stage : FeatureStage
  pub default_on : Bool

-- `FEATURE_REGISTRY`, `FEATURE_OVERRIDES`, `WARNED_FEATURES`, and the features named in the log, the
-- newest first.
pub record Registry : Type 0 where
  pub features : Dict FeatureConfig
  pub overrides : Dict Bool
  pub warned : List String
  pub logged : List String

abbrev is_stable : FeatureStage → Bool
is_stable wip = false
is_stable experimental = false
is_stable stable = true

unfoldable pub get_feature_config : Registry → String → Option FeatureConfig
get_feature_config r name = lookup name r.features

unfoldable pub register_feature : Registry → String → FeatureConfig → Registry
register_feature r name config = record r { features = put name config r.features }

-- `none` is the error that the feature is not registered.
unfoldable pub override_feature_enabled : Registry → String → Option Bool → Option Registry
unfolding get_feature_config
override_feature_enabled r name enabled = elim (get_feature_config r name) [
  | none ↦ none
  | some config ↦ elim enabled [
    | none ↦ some (record r { overrides = remove name r.overrides })
    | some b ↦ some (record r { overrides = put name b r.overrides })
  ]
]

emit_non_stable_warning_once : Registry → String → Registry
emit_non_stable_warning_once r name =
    if contains name r.warned
    then r
    else record r { warned = name ∷ r.warned; logged = name ∷ r.logged }

-- The warning, where a test asks for it.
warn_if : Bool → Registry → String → Registry
unfolding emit_non_stable_warning_once
warn_if b r name = if b then emit_non_stable_warning_once r name else r

module _ (process_env : String → Option String) (to_lower_case : String → String) where
  -- utils/env_aware_utils.ts; an empty value counts as an absent one.
  abbrev pub get_boolean_env_var : String → Bool
  get_boolean_env_var name = elim (process_env name) [
    | none ↦ false
    | some v ↦ str_eq (to_lower_case v) "true" || str_eq (to_lower_case v) "1"
  ]

  -- `none` is the error that the feature is not registered.
  pub is_feature_enabled : Registry → String → Option (Registry × Bool)
  unfolding get_feature_config warn_if
  is_feature_enabled r name = elim (get_feature_config r name) [
    | none ↦ none
    | some config ↦
        let unstable = not (is_stable config.stage) in
        elim (lookup name r.overrides) [
          | some enabled ↦ some (warn_if (enabled && unstable) r name, enabled)
          | none ↦
              if get_boolean_env_var (str_append "ADK_ENABLE_" name)
              then some (warn_if unstable r name, true)
              else if get_boolean_env_var (str_append "ADK_DISABLE_" name)
              then some (r, false)
              else some (warn_if (unstable && config.default_on) r name, config.default_on)
        ]
  ]

-- The `finally` block.
abbrev restore : String → Option Bool → Registry → Registry
restore name none r = record r { overrides = remove name r.overrides }
restore name (some original) r = record r { overrides = put name original r.overrides }

-- The callback is a change of the registry with a result, which may be an error that it throws.
unfoldable pub with_temporary_feature_override :
    {A : Type 0} → Registry → String → Bool → (Registry → Registry × A) → Option (Registry × A)
unfolding get_feature_config
with_temporary_feature_override r name enabled callback = elim (get_feature_config r name) [
  | none ↦ none
  | some config ↦
      let original = lookup name r.overrides in
      let (r', a) = callback (record r { overrides = put name enabled r.overrides }) in
      some (restore name original r', a)
]
