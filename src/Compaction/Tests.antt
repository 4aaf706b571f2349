-- ===== src/Compaction/Tests.antt =====
-- The compactors on a short history with a thought, a function call and its response.
use adk_js.Prelude.{
  ℕ, ◌≡◌, ◌≢◌, refl, String, Bool, false, not, Option, none, some, List, [], ◌∷◌, ◌++◌, map, take,
  drop, keep_if, arith,
}
use mathlib.Core.Option
use adk_js.Event.{
  Event, Part, prune_thoughts, get_function_calls, get_function_responses, stringify_content,
}
use adk_js.Event.Samples.{blank_event, text_part, thinking, calling, responding}
use adk_js.Compaction.{
  is_event_visible_in_isolation_scope, calculate_retain_start_index, get_active_events,
}
use adk_js.Compaction.Retain.{
  IsRetainStart, calculate_retain_start_index_lem, calculate_retain_start_index_throws,
}
use adk_js.Compaction.Truncating
use adk_js.Compaction.Truncating.{TruncatingContextCompactor, truncating_compact_lem}
use adk_js.Compaction.ThoughtPruning
use adk_js.Compaction.ThoughtPruning.{thought_pruning_compact_lem}
use adk_js.Compaction.TokenBased
use adk_js.Compaction.TokenBased.{TokenBasedContextCompactor, raw_events}
use adk_js.Compaction.TokenBased.Active.{IsChronological}
use adk_js.Compaction.Summarizer.{summarize, format_events, summarize-IsSummary}
use adk_js.Compaction.TokenBased.Summary.{Outcome, token_based_compact_lem}

abbrev history : List (Event ℕ)
history = thinking ∷ calling ∷ responding ∷ blank_event "a" 4 ∷ []

abbrev seen : Event ℕ → Bool
seen = is_event_visible_in_isolation_scope none

calculate_retain_start_index_lem_example :
    (i : ℕ) × (calculate_retain_start_index history 2 ≡ some i) × IsRetainStart history 2 i
calculate_retain_start_index_lem_example = calculate_retain_start_index_lem history 2 (omega arith)

-- The index is the one before the function call, not the one between it and its response.
call_and_response_stay : calculate_retain_start_index history 2 ≡ some 1
unfolding calculate_retain_start_index get_function_calls get_function_responses
call_and_response_stay = refl

abbrev part_with : Option String → Option String → Part
part_with call response = record (text_part "") {
  function_call = Option.map (λ id. record { id = some id; name = "search" }) call;
  function_response = Option.map (λ id. record { id = some id; name = "search" }) response;
}

-- Two calls in one event, and their responses in two events.
abbrev two_calls : List (Event ℕ)
two_calls =
    record (blank_event "c" 1) {
      parts = some (part_with (some "A") none ∷ part_with (some "B") none ∷ []);
    }
    ∷ record (blank_event "ra" 2) { parts = some (part_with none (some "A") ∷ []) }
    ∷ record (blank_event "rb" 3) { parts = some (part_with none (some "B") ∷ []) }
    ∷ []

-- The cut comes between the two responses, so the second is kept without its call.
second_response_is_parted : calculate_retain_start_index two_calls 1 ≡ some 2
unfolding calculate_retain_start_index get_function_calls get_function_responses
second_response_is_parted = refl

not_empty : history ≢ []
not_empty h = cc

calculate_retain_start_index_throws_example : calculate_retain_start_index history 0 ≡ none
calculate_retain_start_index_throws_example = calculate_retain_start_index_throws history not_empty

abbrev truncating : TruncatingContextCompactor
truncating = record { threshold = 2; preserve_leading_events = 1 }

truncating_compact_lem_example :
    (keep_if seen (Truncating.compact truncating none history)
      ≡ take 1 (keep_if seen history) ++ drop 1 (drop 1 (keep_if seen history)))
    × (keep_if (λ e. not (seen e)) (Truncating.compact truncating none history)
        ≡ keep_if (λ e. not (seen e)) history)
    × (Truncating.should_compact truncating none (Truncating.compact truncating none history)
        ≡ false)
truncating_compact_lem_example = truncating_compact_lem truncating none history

thought_pruning_compact_lem_example :
    (keep_if seen (ThoughtPruning.compact 1 none history)
      ≡ map prune_thoughts (take 3 (keep_if seen history)) ++ drop 3 (keep_if seen history))
    × (keep_if (λ e. not (seen e)) (ThoughtPruning.compact 1 none history)
        ≡ keep_if (λ e. not (seen e)) history)
thought_pruning_compact_lem_example = thought_pruning_compact_lem none 1 history

abbrev token_based : TokenBasedContextCompactor
token_based = record { token_threshold = 10; event_retention_size = 2 }

-- A model that answers with its prompt's events in short, in two responses.
abbrev model : String → Option (List (Option String))
model prompt = some (some "hm" ∷ none ∷ some ", yes" ∷ [])

abbrev summary : List (Event ℕ) → Option (Event ℕ)
summary = summarize model none "id" 9

abbrev summary_of_one : Event ℕ
summary_of_one = record (blank_event "id" 9) {
  author = some "system";
  parts = some (text_part "hm, yes" ∷ []);
  compacted = some (record {
    start_time = 1;
    end_time = 1;
    compacted_content = "hm, yes";
    is_scratchpad = false;
  });
}

no_answer_is_an_error : summarize (λ prompt. some (some "" ∷ [])) none "id" 9 history ≡ none
unfolding summarize
no_answer_is_an_error = refl

twelve_in_the_prompt :
    format_events {V = ℕ} 11 (thinking ∷ []) ≡ "[Event 12 - Author: user]\nyes\n\n"
unfolding format_events stringify_content
twelve_in_the_prompt = refl

history-IsChronological : IsChronological (raw_events history none)
unfolding get_active_events
history-IsChronological = ground arith

token_based_compact_lem_example :
    Outcome 2 none history summary (TokenBased.compact summary token_based none history)
token_based_compact_lem_example =
    token_based_compact_lem summary token_based none history (omega arith) history-IsChronological
      (summarize-IsSummary model none "id" 9)

-- The first event is summarised; the call and its response, and the last event, stay active.
active_after_compaction :
    elim (TokenBased.compact summary token_based none history) [
      | none ↦ none
      | some events ↦ some (get_active_events events none)
    ]
    ≡ some (summary_of_one ∷ calling ∷ responding ∷ blank_event "a" 4 ∷ [])
unfolding TokenBased.compact get_active_events calculate_retain_start_index get_function_calls
    get_function_responses summarize
active_after_compaction = refl

-- A kept event at the time of the last summarised one is no longer active.
event_of_same_time_is_lost :
    elim (TokenBased.compact summary token_based none
      (thinking ∷ blank_event "b" 1 ∷ blank_event "d" 2 ∷ [])) [
        | none ↦ none
        | some events ↦ some (get_active_events events none)
      ]
    ≡ some (summary_of_one ∷ blank_event "d" 2 ∷ [])
unfolding TokenBased.compact get_active_events calculate_retain_start_index get_function_calls
    get_function_responses summarize
event_of_same_time_is_lost = refl
