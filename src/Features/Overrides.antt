-- ===== src/Features/Overrides.antt =====
-- Which setting decides, and that a temporary override leaves nothing behind.
use adk_js.Prelude.{
  ◌≡◌, refl, sym, ap, ◌⊎◌, inl, inr, String, Bool, true, false, not, ◌&&◌, ◌||◌, Option, none, some,
  ◌∷◌, arith, str_eq, Bool-cases, Option-cases, if◌then◌else◌,
}
use Prim.Native.String.{◌++◌ as str_append}
use adk_js.Prelude.Dict.{lookup, put, lookup-put, lookup-remove}
use adk_js.Prelude.Names.{contains, AllDistinct}
use mathlib.Core.Path.{subst}
use adk_js.Features.{
  Registry, FeatureConfig, is_stable, get_feature_config, warn_if, get_boolean_env_var,
  is_feature_enabled, restore, with_temporary_feature_override,
}

-- The features of the log are those that were warned of, each once.
abbrev pub IsWarnedOnce : Registry → Type 0
IsWarnedOnce r = (r.logged ≡ r.warned) × AllDistinct r.logged

warn_if_lem :
    (b : Bool) (r : Registry) (name : String) → IsWarnedOnce r → IsWarnedOnce (warn_if b r name)
unfolding warn_if
warn_if_lem false r name h = h
warn_if_lem true r name (h, d) = elim (Bool-cases (contains name r.warned)) [
  | inl old ↦
      let D : warn_if true r name ≡ r = ground (arith, old) in subst IsWarnedOnce (sym D) (h, d)
  | inr new ↦
      let r' = record r { warned = name ∷ r.warned; logged = name ∷ r.logged } in
      let D : warn_if true r name ≡ r' = ground (arith, new) in
      subst IsWarnedOnce (sym D) (ap (λ l. name ∷ l) h, (rw h new, d))
]

-- Asking after a feature fails just if it is not registered; the answer is the override's, if there
-- is one, else `true` if the variable that enables it is set, else `false` if the variable that
-- disables it is set, else the default; and if each feature in the log was warned of once before,
-- so it is after.
pub is_feature_enabled_lem :
    (process_env : String → Option String) (to_lower_case : String → String) (r : Registry)
    (name : String)
    → IsWarnedOnce r
    → ((get_feature_config r name ≡ none)
        × (is_feature_enabled process_env to_lower_case r name ≡ none))
      ⊎ ((config : FeatureConfig) × (r' : Registry) × (enabled : Bool) × (get_feature_config r name
            ≡ some config)
          × (is_feature_enabled process_env to_lower_case r name ≡ some (r', enabled))
          × (enabled ≡ (elim (lookup name r.overrides) as (λ _. Bool) [
            | some b ↦ b
            | none ↦
                get_boolean_env_var process_env to_lower_case (str_append "ADK_ENABLE_" name)
                || (not (
                      get_boolean_env_var process_env to_lower_case
                        (str_append "ADK_DISABLE_" name))
                    && config.default_on)
          ]))
          × IsWarnedOnce r')
unfolding is_feature_enabled
is_feature_enabled_lem process_env to_lower_case r name h =
    let on = get_boolean_env_var process_env to_lower_case (str_append "ADK_ENABLE_" name) in
    let off = get_boolean_env_var process_env to_lower_case (str_append "ADK_DISABLE_" name) in
    elim (Option-cases (get_feature_config r name)) [
      | inl g ↦ inl (g, ground (arith, g))
      | inr (config, g) ↦
          let unstable = not (is_stable config.stage) in
          inr (elim (Option-cases (lookup name r.overrides)) [
            | inr (b, o) ↦ (
              config,
              warn_if (b && unstable) r name,
              b,
              g,
              ground (arith, g, o),
              rw o refl,
              warn_if_lem (b && unstable) r name h,
            )
            | inl o ↦ elim (Bool-cases on) [
              | inl e ↦ (
                config,
                warn_if unstable r name,
                true,
                g,
                ground (arith, g, o, e),
                rw (o, e) refl,
                warn_if_lem unstable r name h,
              )
              | inr e ↦ elim (Bool-cases off) [
                | inl d ↦ (config, r, false, g, ground (arith, g, o, e, d), rw (o, e, d) refl, h)
                | inr d ↦
                    let warns = unstable && config.default_on in
                    (
                      config,
                      warn_if warns r name,
                      config.default_on,
                      g,
                      ground (arith, g, o, e, d),
                      rw (o, e, d) refl,
                      warn_if_lem warns r name h,
                    )
              ]
            ]
          ])
    ]

restore_lem :
    (name : String) (o : Option Bool) (r : Registry) (other : String)
    → lookup other (restore name o r).overrides
      ≡ (if str_eq name other then o else lookup other r.overrides)
restore_lem name none r other = lookup-remove name other r.overrides
restore_lem name (some b) r other = lookup-put name other b r.overrides

-- After a temporary override of a registered feature, whose callback may do what it likes, the
-- feature's override is as it was before, and every other one is as the callback left it.
pub with_temporary_feature_override_lem :
    {A : Type 0} (r : Registry) (name : String) (enabled : Bool)
    (callback : Registry → Registry × A) (config : FeatureConfig) (other : String)
    → get_feature_config r name ≡ some config
    → let inside = callback (record r { overrides = put name enabled r.overrides }) in
      (after : Registry) × (with_temporary_feature_override r name enabled callback
        ≡ some (after, inside.1))
      × (lookup other after.overrides ≡ (
          if str_eq name other then lookup name r.overrides else lookup other inside.0.overrides))
unfolding with_temporary_feature_override
with_temporary_feature_override_lem r name enabled callback config other h =
    let inside = callback (record r { overrides = put name enabled r.overrides }) in
    (
      restore name (lookup name r.overrides) inside.0,
      ground (arith, h),
      restore_lem name (lookup name r.overrides) inside.0 other,
    )
