-- ===== src/Plugins/Tests.antt =====
-- Two plugins, of which the second answers.
use adk_js.Prelude.{ℕ, ◌≡◌, refl, String, [], ◌∷◌, ◌==◌, if◌then◌else◌}
use adk_js.Plugins.{BasePlugin, Outcome, nothing, value, returned, run_callbacks}
use adk_js.Plugins.Callbacks.{IsDecided, run_callbacks-IsDecided}

abbrev log : BasePlugin
log = record { id = 0; name = "log" }

abbrev guard : BasePlugin
guard = record { id = 1; name = "guard" }

abbrev answer : BasePlugin → Outcome ℕ String
answer p = if p.id == 1 then value 7 else nothing

guard_answers : run_callbacks (log ∷ guard ∷ log ∷ []) answer ≡ (returned 7, log ∷ guard ∷ [])
unfolding run_callbacks
guard_answers = refl

run_callbacks-IsDecided_example :
    IsDecided answer
      (log ∷ guard ∷ [])
      (run_callbacks (log ∷ guard ∷ []) answer).0
      (run_callbacks (log ∷ guard ∷ []) answer).1
run_callbacks-IsDecided_example = run_callbacks-IsDecided answer (log ∷ guard ∷ [])
