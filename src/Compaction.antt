-- ===== src/Compaction.antt =====
-- core/src/context: what the context compactors share (compaction_utils.ts). Sizes, counts and times
-- are natural numbers. A session's events are a list; a compactor returns the new list.
pub mod Retain
mod Indices
pub mod Truncating
pub mod ThoughtPruning
pub mod TokenBased
pub mod Summarizer
mod Tests
use adk_js.Prelude.{
  ℕ, zero, suc, ◌-◌, String, Bool, true, false, not, ◌&&◌, Option, none, some, List, [], ◌∷◌,
  length, get_elem?, keep_if, ltb, str_eq, if◌then◌else◌,
}
use adk_js.Event.{
  Event, Compaction, is_nil, is_compacted_event, get_function_calls, get_function_responses,
}

abbrev in_scope : Option String → Option String → Bool
in_scope none current = true
in_scope (some s) none = false
in_scope (some s) (some t) = str_eq s t

module _ {V : Type 0} where
  abbrev pub is_event_visible_in_isolation_scope : Option String → Event V → Bool
  is_event_visible_in_isolation_scope current e = in_scope e.isolation_scope current

  -- The last compacted event, with its compaction.
  abbrev pub latest_compacted : List (Event V) → Option (Event V × Compaction)
  latest_compacted [] = none
  latest_compacted (e ∷ es) = elim (latest_compacted es) [
    | some found ↦ some found
    | none ↦ elim e.compacted [ none ↦ none | some c ↦ some (e, c) ]
  ]

  unfoldable pub get_active_events : List (Event V) → Option String → List (Event V)
  get_active_events events current =
      let visible = keep_if (is_event_visible_in_isolation_scope current) events in
      elim (latest_compacted visible) [
        | none ↦ visible
        | some (latest, c) ↦
            latest ∷ keep_if (λ e. not (is_compacted_event e) && ltb c.end_time e.timestamp) visible
      ]

  -- A cut before the event at this index parts a function call from its response.
  abbrev separates : Event V → Event V → Bool
  separates before here =
      not (is_nil (get_function_responses here)) && not (is_nil (get_function_calls before))

  -- The `while` loop; `none` is the `TypeError` of reading an event that is not there.
  step_back : List (Event V) → ℕ → Option ℕ
  step_back raw zero = some 0
  step_back raw (suc i) =
      let again = step_back raw i in
      elim (get_elem? raw (suc i)) [
        | none ↦ none
        | some here ↦ elim (get_elem? raw i) [
          | none ↦ none
          | some before ↦ if separates before here then again else some (suc i)
        ]
      ]

  -- `Math.max(0, length - size)` is the truncated difference.
  pub calculate_retain_start_index : List (Event V) → ℕ → Option ℕ
  unfolding step_back
  calculate_retain_start_index raw size = step_back raw (length raw - size)
