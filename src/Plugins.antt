-- ===== src/Plugins.antt =====
-- core/src/plugins/plugin_manager.ts: the registered plugins, and running one callback of each. A
-- plugin object is a number with the plugin's name. Each `run…Callback` of the manager is
-- `run_callbacks` with that callback of the plugins, which is a parameter.
pub mod Callbacks
mod Tests
use adk_js.Prelude.{
  ℕ, String, Bool, true, false, not, Option, none, some, List, [], ◌∷◌, ◌++◌, length, ◌==◌, str_eq,
  if◌then◌else◌,
}

pub record BasePlugin : Type 0 where
  pub id : ℕ
  pub name : String

-- The two errors of a registration.
pub data Registration : Type 0 where
  registered : List BasePlugin → Registration
  same_plugin : String → Registration
  same_name : String → Registration

abbrev pub has_plugin : ℕ → List BasePlugin → Bool
has_plugin id [] = false
has_plugin id (p ∷ ps) = if p.id == id then true else has_plugin id ps

abbrev pub has_name : String → List BasePlugin → Bool
has_name name [] = false
has_name name (p ∷ ps) = if str_eq p.name name then true else has_name name ps

unfoldable pub register_plugin : List BasePlugin → BasePlugin → Registration
register_plugin ps p =
    if has_plugin p.id ps
    then same_plugin p.name
    else if has_name p.name ps
    then same_name p.name
    else registered (ps ++ p ∷ [])

-- The constructor's loop, which an error ends.
pub new_plugin_manager : List BasePlugin → List BasePlugin → Registration
new_plugin_manager ps [] = registered ps
new_plugin_manager ps (p ∷ new) = elim (register_plugin ps p) [
  | registered ps' ↦ new_plugin_manager ps' new
  | same_plugin n ↦ same_plugin n
  | same_name n ↦ same_name n
]

unfoldable pub get_plugin : List BasePlugin → String → Option BasePlugin
get_plugin [] name = none
get_plugin (p ∷ ps) name = if str_eq p.name name then some p else get_plugin ps name

unfoldable pub has_plugins : List BasePlugin → Bool
has_plugins [] = false
has_plugins (p ∷ ps) = true

-- What a callback does: it gives nothing or a value, or throws.
pub data Outcome (A E : Type 0) : Type 0 where
  nothing : Outcome A E
  value : A → Outcome A E
  throws : E → Outcome A E

-- What the manager's caller gets; an error is wrapped with the plugin's name.
pub data Result (A E : Type 0) : Type 0 where
  undefined : Result A E
  returned : A → Result A E
  failed : String → E → Result A E

module _ {A E : Type 0} where
  -- The result, and the plugins whose callback ran.
  unfoldable pub run_callbacks :
      List BasePlugin → (BasePlugin → Outcome A E) → Result A E × List BasePlugin
  run_callbacks [] callback = (undefined, [])
  run_callbacks (p ∷ ps) callback =
      let (result, ran) = run_callbacks ps callback in
      elim (callback p) as (λ _. Result A E × List BasePlugin) [
        | nothing ↦ (result, p ∷ ran)
        | value a ↦ (returned a, p ∷ [])
        | throws e ↦ (failed p.name e, p ∷ [])
      ]
