-- ===== src/Plugins/Callbacks.antt =====
-- The names stay distinct, and the first plugin that answers decides.
use adk_js.Prelude.{
  ◌≡◌, refl, sym, ◌⊎◌, inl, inr, String, true, false, some, List, [], ◌∷◌, ◌++◌, str_eq, arith,
  eq_iff, Bool-cases, if◌then◌else◌,
}
use mathlib.Core.Path.{subst}
use adk_js.Plugins.{
  BasePlugin, registered, same_plugin, same_name, has_plugin, has_name, register_plugin, get_plugin,
  Outcome, nothing, value, throws, Result, undefined, returned, failed, run_callbacks,
}

abbrev pub HasDistinctNames : List BasePlugin → Type 0
HasDistinctNames [] = Unit
HasDistinctNames (p ∷ ps) = (has_name p.name ps ≡ false) × HasDistinctNames ps

has_name-append :
    (n : String) (ps : List BasePlugin) (p : BasePlugin)
    → has_name n (ps ++ p ∷ []) ≡ (if has_name n ps then true else str_eq p.name n)
has_name-append n [] p = ground arith
has_name-append n (q ∷ ps) p = ground (arith, has_name-append n ps p)

append-HasDistinctNames :
    (ps : List BasePlugin) (p : BasePlugin)
    → has_name p.name ps ≡ false
    → HasDistinctNames ps
    → HasDistinctNames (ps ++ p ∷ [])
append-HasDistinctNames [] p h d = (refl, tt)
append-HasDistinctNames (q ∷ ps) p h (n, d) = (
  ground (arith, has_name-append q.name ps p, n, eq_iff p.name q.name, eq_iff q.name p.name),
  append-HasDistinctNames ps p (ground (arith, h)) d,
)

get_plugin-append :
    (ps : List BasePlugin) (p : BasePlugin) (n : String)
    → has_name p.name ps ≡ false
    → get_plugin (ps ++ p ∷ []) n ≡ (if str_eq p.name n then some p else get_plugin ps n)
unfolding get_plugin
get_plugin-append [] p n h = refl
get_plugin-append (q ∷ ps) p n h =
    ground (arith, get_plugin-append ps p n, eq_iff p.name n, eq_iff q.name n, eq_iff q.name p.name)

-- Registering fails for the same plugin, and for another with a name that is taken; it then names the
-- plugin. Otherwise the plugin goes to the end, distinct names stay distinct, and its name then finds
-- it, while every other name finds what it found before.
pub register_plugin_lem :
    (ps : List BasePlugin) (p : BasePlugin) (n : String)
    → HasDistinctNames ps
    → ((has_plugin p.id ps ≡ true) × (register_plugin ps p ≡ same_plugin p.name))
      ⊎ (((has_plugin p.id ps ≡ false)
            × (has_name p.name ps ≡ true)
            × (register_plugin ps p ≡ same_name p.name))
          ⊎ ((register_plugin ps p ≡ registered (ps ++ p ∷ []))
              × HasDistinctNames (ps ++ p ∷ [])
              × (get_plugin (ps ++ p ∷ []) n
                  ≡ (if str_eq p.name n then some p else get_plugin ps n))))
unfolding register_plugin
register_plugin_lem ps p n d = elim (Bool-cases (has_plugin p.id ps)) [
  | inl h ↦ inl (h, rw h refl)
  | inr h ↦ elim (Bool-cases (has_name p.name ps)) [
    | inl k ↦ inr (inl (h, k, rw (h, k) refl))
    | inr k ↦
        inr (inr (rw (h, k) refl, append-HasDistinctNames ps p k d, get_plugin-append ps p n k))
  ]
]

Outcome-cases :
    {A E : Type 0} (o : Outcome A E)
    → (o ≡ nothing) ⊎ (((a : A) × (o ≡ value a)) ⊎ ((e : E) × (o ≡ throws e)))
Outcome-cases nothing = inl refl
Outcome-cases (value a) = inr (inl (a, refl))
Outcome-cases (throws e) = inr (inr (e, refl))

module _ {A E : Type 0} (callback : BasePlugin → Outcome A E) where
  -- No plugin answers; or the plugins before one answer nothing, and that one gives a value or throws.
  pub data IsDecided : List BasePlugin → Result A E → List BasePlugin → Type 0 where
    no_answer : IsDecided [] undefined []
    skips :
        {p : BasePlugin} {ps : List BasePlugin} {r : Result A E} {ran : List BasePlugin}
        → callback p ≡ nothing
        → IsDecided ps r ran
        → IsDecided (p ∷ ps) r (p ∷ ran)
    answers :
        {p : BasePlugin} {ps : List BasePlugin} {a : A}
        → callback p ≡ value a
        → IsDecided (p ∷ ps) (returned a) (p ∷ [])
    fails :
        {p : BasePlugin} {ps : List BasePlugin} {e : E}
        → callback p ≡ throws e
        → IsDecided (p ∷ ps) (failed p.name e) (p ∷ [])

  -- The callbacks run in the order of registration up to the first that gives a value or throws, which
  -- decides the result, and none behind it runs; if all give nothing, there is no result.
  pub run_callbacks-IsDecided :
      (ps : List BasePlugin)
      → IsDecided ps (run_callbacks ps callback).0 (run_callbacks ps callback).1
  unfolding run_callbacks
  run_callbacks-IsDecided [] = no_answer
  run_callbacks-IsDecided (p ∷ ps) =
      let Decides : Result A E × List BasePlugin → Type 0 = λ r. IsDecided (p ∷ ps) r.0 r.1 in
      let rest = run_callbacks ps callback in
      let all = run_callbacks (p ∷ ps) callback in
      elim (Outcome-cases (callback p)) [
        | inl h ↦
            let D : all ≡ (rest.0, p ∷ rest.1) = ground (arith, h) in
            subst Decides (sym D) (skips h (run_callbacks-IsDecided ps))
        | inr (inl (a, h)) ↦
            let D : all ≡ (returned a, p ∷ []) = ground (arith, h) in
            subst Decides (sym D) (answers h)
        | inr (inr (e, h)) ↦
            let D : all ≡ (failed p.name e, p ∷ []) = ground (arith, h) in
            subst Decides (sym D) (fails h)
      ]
