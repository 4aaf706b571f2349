-- ===== src/Compaction/Summarizer.antt =====
-- core/src/context/summarizers/llm_summarizer.ts: the prompt that is built of events and the event
-- that is made of a model's answers. The call of the model is a parameter: for a prompt, the text of
-- the first part of each response, or `none` where the call fails. A fresh id and the time are
-- passed in.
use adk_js.Prelude.{
  ℕ, zero, suc, ◌/◌, ◌%◌, ◌≡◌, refl, inl, inr, String, false, Option, none, some, List, [], ◌∷◌,
  str_eq, get_elem?, Option-cases, if◌then◌else◌,
}
use mathlib.Core.Path.{subst}
use Prim.Native.String.{◌++◌ as str_append}
use adk_js.Event.{Event, stringify_content}
use adk_js.Compaction.TokenBased.Active.{end_of}
use adk_js.Compaction.TokenBased.Summary.{IsSummary}

abbrev digits : List String
digits = "0" ∷ "1" ∷ "2" ∷ "3" ∷ "4" ∷ "5" ∷ "6" ∷ "7" ∷ "8" ∷ "9" ∷ []

-- One decimal digit.
abbrev digit : ℕ → String
digit n = elim (get_elem? digits n) [ none ↦ "" | some d ↦ d ]

-- A number in decimal digits, on fuel: the number itself is enough, as each round takes a digit.
abbrev decimal_text : ℕ → ℕ → String
decimal_text zero n = digit n
decimal_text (suc f) n =
    let front = decimal_text f (n / 10) in
    elim (n / 10) [ zero ↦ digit n | suc m ↦ str_append front (digit (n % 10)) ]

abbrev author_text : Option String → String
author_text none = "undefined"
author_text (some author) = author

abbrev pub default_prompt : String
default_prompt =
    "The following is a conversation history between a user and an AI agent. Please summarize the conversation, focusing on key information and decisions made, as well as any unresolved questions or tasks. The summary should be concise and capture the essence of the interaction."

-- `options.prompt || DEFAULT_PROMPT`
abbrev prompt_or_default : Option String → String
prompt_or_default none = default_prompt
prompt_or_default (some prompt) = if str_eq prompt "" then default_prompt else prompt

-- The texts of the responses behind the first.
abbrev rest_text : List (Option String) → String
rest_text [] = ""
rest_text (none ∷ texts) = rest_text texts
rest_text (some text ∷ texts) = str_append text (rest_text texts)

-- The text of all the responses; without one in the first response there is no summary.
compacted_text : List (Option String) → Option String
compacted_text [] = none
compacted_text (none ∷ texts) = none
compacted_text (some text ∷ texts) =
    if str_eq text "" then none else some (str_append text (rest_text texts))

module _ {V : Type 0} where
  -- The events as text, numbered from the one behind `i`.
  unfoldable pub format_events : ℕ → List (Event V) → String
  unfolding stringify_content
  format_events i [] = ""
  format_events i (e ∷ es) = str_append "[Event " (
      str_append (decimal_text (suc i) (suc i)) (
        str_append " - Author: " (
          str_append (author_text e.author) (
            str_append "]\n"
              (str_append (stringify_content e) (str_append "\n\n" (format_events (suc i) es)))))))

  -- `createCompactedEvent` with the author `system` and one part of text.
  abbrev compacted_event : String → ℕ → ℕ → ℕ → String → Event V
  compacted_event id now start_time end_time content = record {
    id = id;
    author = some "system";
    timestamp = now;
    partial = false;
    parts = some (
        record {
          text = some content;
          thought = false;
          function_call = none;
          function_response = none;
          code_execution_result = false;
        }
        ∷ []);
    actions = record {
      skip_summarization = none;
      state_delta = record { entries = []; stamps = [] };
      requested_auth_configs = [];
      transfer_to_agent = none;
      escalate = none;
    };
    long_running_tool_ids = [];
    isolation_scope = none;
    prompt_token_count = none;
    compacted = some (record {
      start_time = start_time;
      end_time = end_time;
      compacted_content = content;
      is_scratchpad = false;
    });
  }

  abbrev last_time : Event V → List (Event V) → ℕ
  last_time e [] = e.timestamp
  last_time e (f ∷ es) = last_time f es

  -- `none` is an error that is thrown: of no events, of the model, or of an empty answer.
  unfoldable pub summarize :
      (String → Option (List (Option String)))
      → Option String
      → String
      → ℕ
      → List (Event V)
      → Option (Event V)
  unfolding format_events compacted_text
  summarize generate prompt id now [] = none
  summarize generate prompt id now (e ∷ es) =
      elim (generate
        (str_append (prompt_or_default prompt) (str_append "\n\n" (format_events 0 (e ∷ es))))) [
          | none ↦ none
          | some texts ↦ elim (compacted_text texts) [
            | none ↦ none
            | some content ↦ some (compacted_event id now e.timestamp (last_time e es) content)
          ]
        ]

  last_time_lem : (e : Event V) (es : List (Event V)) → end_of (e ∷ es) ≡ some (last_time e es)
  last_time_lem e [] = refl
  last_time_lem e (f ∷ es) = last_time_lem f es

  -- The summarizer keeps the promise that compaction by tokens relies on.
  pub summarize-IsSummary :
      (generate : String → Option (List (Option String))) (prompt : Option String) (id : String)
      (now : ℕ) (es : List (Event V)) (s : Event V)
      → summarize generate prompt id now es ≡ some s
      → IsSummary es s
  unfolding summarize
  summarize-IsSummary generate prompt id now [] s h = cc
  summarize-IsSummary generate prompt id now (e ∷ es) s h =
      let asked =
        generate
          (str_append (prompt_or_default prompt) (str_append "\n\n" (format_events 0 (e ∷ es)))) in
      elim (Option-cases asked) [
        | inl n ↦ cc (rw (summarize, n) at h)
        | inr (texts, g) ↦ elim (Option-cases (compacted_text texts)) [
          | inl n ↦ cc (rw (summarize, g, n) at h)
          | inr (content, c) ↦
              let made = compacted_event id now e.timestamp (last_time e es) content in
              let equal : some made ≡ some s = rw (summarize, g, c) at h in
              let same : made ≡ s = cc in
              subst (IsSummary (e ∷ es)) same (record {
                compaction = record {
                  start_time = e.timestamp;
                  end_time = last_time e es;
                  compacted_content = content;
                  is_scratchpad = false;
                };
                compacted = refl;
                ends = last_time_lem e es;
                untagged = refl;
              })
        ]
      ]
