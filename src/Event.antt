-- ===== src/Event.antt =====
-- core/src/events: an event of a session, what it carries, and the questions that the code asks of
-- it (event.ts, compacted_event.ts). `V` is the type of the values of a session's state. An event
-- has here the fields that the modelled code reads; a time and a count are natural numbers.
pub mod Thoughts
pub mod Calls
pub mod Samples
mod Tests
use adk_js.Prelude.{
  ℕ, ◌+◌, ◌/◌, String, Bool, true, false, not, ◌&&◌, ◌||◌, Option, none, some, List, [], ◌∷◌,
  length, ltb, if◌then◌else◌,
}
use Prim.Native.String
use Prim.Native.String.{◌++◌ as str_append}

pub record FunctionCall : Type 0 where
  pub id : Option String
  pub name : String

pub record FunctionResponse : Type 0 where
  pub id : Option String
  pub name : String

-- The fields of a part that the code reads; `code_execution_result` says whether there is one.
pub record Part : Type 0 where
  pub text : Option String
  pub thought : Bool
  pub function_call : Option FunctionCall
  pub function_response : Option FunctionResponse
  pub code_execution_result : Bool

-- An object with string keys (a `stateDelta` or a state), and the stamps that the write order
-- (sessions/state_write_order.ts) keeps for that very object.
pub record Stamped (V : Type 0) : Type 0 where
  pub entries : List (String × V)
  pub stamps : List (String × ℕ)

pub record EventActions (V : Type 0) : Type 0 where
  pub skip_summarization : Option Bool
  pub state_delta : Stamped V
  pub requested_auth_configs : List String
  pub transfer_to_agent : Option String
  pub escalate : Option Bool

-- What a `CompactedEvent` adds to an event.
pub record Compaction : Type 0 where
  pub start_time : ℕ
  pub end_time : ℕ
  pub compacted_content : String
  pub is_scratchpad : Bool

-- `parts` is `content?.parts`, and `compacted` is there on an event with `isCompacted`.
pub record Event (V : Type 0) : Type 0 where
  pub id : String
  pub author : Option String
  pub timestamp : ℕ
  pub partial : Bool
  pub parts : Option (List Part)
  pub actions : EventActions V
  pub long_running_tool_ids : List String
  pub isolation_scope : Option String
  pub prompt_token_count : Option ℕ
  pub compacted : Option Compaction

abbrev parts_or_nil : Option (List Part) → List Part
parts_or_nil none = []
parts_or_nil (some ps) = ps

abbrev pub calls_of : List Part → List FunctionCall
calls_of [] = []
calls_of (p ∷ ps) = elim p.function_call [ none ↦ calls_of ps | some c ↦ c ∷ calls_of ps ]

abbrev pub responses_of : List Part → List FunctionResponse
responses_of [] = []
responses_of (p ∷ ps) = elim p.function_response [
  | none ↦ responses_of ps
  | some r ↦ r ∷ responses_of ps
]

abbrev ends_with_result : List Part → Bool
ends_with_result [] = false
ends_with_result (p ∷ []) = p.code_execution_result
ends_with_result (p ∷ q ∷ ps) = ends_with_result (q ∷ ps)

abbrev pub is_nil {ℓ} : {A : Type ℓ} → List A → Bool
is_nil [] = true
is_nil (x ∷ xs) = false

abbrev unthought : List Part → List Part
unthought [] = []
unthought (p ∷ ps) = if p.thought then unthought ps else p ∷ unthought ps

abbrev any_thought : List Part → Bool
any_thought [] = false
any_thought (p ∷ ps) = if p.thought then true else any_thought ps

abbrev text_of : Option String → String
text_of none = ""
text_of (some s) = s

abbrev join_texts : List Part → String
join_texts [] = ""
join_texts (p ∷ ps) = str_append (text_of p.text) (join_texts ps)

-- A flag that is tested for truth.
abbrev is_truthy : Option Bool → Bool
is_truthy none = false
is_truthy (some b) = b

module _ {V : Type 0} where
  unfoldable pub get_function_calls : Event V → List FunctionCall
  get_function_calls e = calls_of (parts_or_nil e.parts)

  unfoldable pub get_function_responses : Event V → List FunctionResponse
  get_function_responses e = responses_of (parts_or_nil e.parts)

  has_trailing_code_execution_result : Event V → Bool
  has_trailing_code_execution_result e = ends_with_result (parts_or_nil e.parts)

  is_final_response : Event V → Bool
  unfolding get_function_calls get_function_responses has_trailing_code_execution_result
  is_final_response e =
      if is_truthy e.actions.skip_summarization
        || not (is_nil e.long_running_tool_ids)
        || not (is_nil e.actions.requested_auth_configs)
      then true
      else is_nil (get_function_calls e)
        && is_nil (get_function_responses e)
        && not e.partial
        && not (has_trailing_code_execution_result e)

  unfoldable pub stringify_content : Event V → String
  stringify_content e = join_texts (unthought (parts_or_nil e.parts))

  -- `text_length` is JavaScript's `length` of a string, a number of UTF-16 units.
  unfoldable pub get_event_tokens : (String → ℕ) → Event V → ℕ
  unfolding stringify_content
  get_event_tokens text_length e = elim e.prompt_token_count [
    | some n ↦ n
    | none ↦ (text_length (stringify_content e) + 3) / 4
  ]

  unfoldable pub has_thoughts : Event V → Bool
  has_thoughts e = any_thought (parts_or_nil e.parts)

  unfoldable pub prune_thoughts : Event V → Event V
  prune_thoughts e = elim e.parts [ none ↦ e | some ps ↦ record e { parts = some (unthought ps) } ]

  abbrev pub is_compacted_event : Event V → Bool
  is_compacted_event e = elim e.compacted [ none ↦ false | some c ↦ true ]

  abbrev pub is_scratchpad_event : Event V → Bool
  is_scratchpad_event e = elim e.compacted [ none ↦ false | some c ↦ c.is_scratchpad ]
