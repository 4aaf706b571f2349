-- ===== src/Compaction/TokenBased.antt =====
-- core/src/context/token_based_context_compactor.ts: old events are summarised into a new event at
-- the end of the history. The summarizer is a parameter (Compaction/Summarizer is the one of the
-- source), and so is the estimate of the prompt's size that is used where no event has a count. A
-- summarizer's event has actions; a summarizer that rejects returns `none`.
pub mod Active
pub mod Summary
use adk_js.Prelude.{
  ℕ, ◌-◌, ◌≤◌, ◌<◌, ◌≡◌, ◌⊎◌, inl, inr, String, Bool, false, not, Option, none, some, List, [], ◌∷◌,
  ◌++◌, length, take, keep_if, leb, ltb, ◌==◌, arith, Bool-cases, if◌then◌else◌,
}
use adk_js.Event.{Event, is_compacted_event}
use adk_js.Compaction.{get_active_events, calculate_retain_start_index}

pub record TokenBasedContextCompactor : Type 0 where
  pub token_threshold : ℕ
  pub event_retention_size : ℕ

module _ {V : Type 0} where
  abbrev pub raw_events : List (Event V) → Option String → List (Event V)
  raw_events events scope =
      keep_if (λ e. not (is_compacted_event e)) (get_active_events events scope)

  -- The first compacted event, as a list of none or one.
  abbrev pub find_compacted : List (Event V) → List (Event V)
  find_compacted [] = []
  find_compacted (e ∷ es) = if is_compacted_event e then e ∷ [] else find_compacted es

  abbrev last_count : List (Event V) → Option ℕ
  last_count [] = none
  last_count (e ∷ es) = elim (last_count es) [ some n ↦ some n | none ↦ e.prompt_token_count ]

  latest_prompt_token_count : (List (Event V) → Option ℕ) → List (Event V) → Option ℕ
  latest_prompt_token_count estimate active = elim (last_count active) [
    | some n ↦ some n
    | none ↦ estimate active
  ]

  -- `none` is a `TypeError`.
  pub should_compact :
      (List (Event V) → Option ℕ)
      → TokenBasedContextCompactor
      → Option String
      → List (Event V)
      → Option Bool
  unfolding latest_prompt_token_count
  should_compact estimate c scope events =
      let raw = raw_events events scope in
      if leb (length raw) c.event_retention_size
      then some false
      else elim (calculate_retain_start_index raw c.event_retention_size) [
        | none ↦ none
        | some i ↦
            if i == 0
            then some false
            else elim (latest_prompt_token_count estimate (get_active_events events scope)) [
              | none ↦ some false
              | some n ↦ some (ltb c.token_threshold n)
            ]
      ]

  -- `compactedEvent.isolationScope ??= …`
  abbrev pub tag : Option String → Event V → Event V
  tag scope e = elim e.isolation_scope [ none ↦ record e { isolation_scope = scope } | some s ↦ e ]

  -- `none` is an error: a `TypeError`, or the summarizer's own rejection. The session's events
  -- change only at the end, so an error leaves them as they were.
  unfoldable pub compact :
      (List (Event V) → Option (Event V))
      → TokenBasedContextCompactor
      → Option String
      → List (Event V)
      → Option (List (Event V))
  compact summarize c scope events =
      let raw = raw_events events scope in
      if leb (length raw) c.event_retention_size
      then some events
      else elim (calculate_retain_start_index raw c.event_retention_size) [
        | none ↦ none
        | some i ↦
            if i == 0
            then some events
            else elim (summarize (find_compacted (get_active_events events scope) ++ take i raw)) [
              | none ↦ none
              | some summary ↦ some (events ++ tag scope summary ∷ [])
            ]
      ]
