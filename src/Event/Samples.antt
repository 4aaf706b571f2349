-- ===== src/Event/Samples.antt =====
-- Events for the tests: blank ones, and ones with a thought, a function call or its response.
use adk_js.Prelude.{ℕ, String, true, false, none, some, [], ◌∷◌}
use adk_js.Event.{Event, Part, EventActions, Stamped}

abbrev pub no_delta : Stamped ℕ
no_delta = record { entries = []; stamps = [] }

abbrev pub no_actions : EventActions ℕ
no_actions = record {
  skip_summarization = none;
  state_delta = no_delta;
  requested_auth_configs = [];
  transfer_to_agent = none;
  escalate = none;
}

abbrev pub blank_event : String → ℕ → Event ℕ
blank_event id time = record {
  id = id;
  author = some "user";
  timestamp = time;
  partial = false;
  parts = none;
  actions = no_actions;
  long_running_tool_ids = [];
  isolation_scope = none;
  prompt_token_count = none;
  compacted = none;
}

abbrev pub text_part : String → Part
text_part s = record {
  text = some s;
  thought = false;
  function_call = none;
  function_response = none;
  code_execution_result = false;
}

abbrev pub thinking : Event ℕ
thinking = record (blank_event "t" 1) {
  parts = some (record (text_part "hm") { thought = true } ∷ text_part "yes" ∷ []);
}

abbrev pub calling : Event ℕ
calling = record (blank_event "c" 2) {
  parts = some (
      record (text_part "") { function_call = some (record { id = some "f"; name = "search" }) }
      ∷ []);
}

abbrev pub responding : Event ℕ
responding = record (blank_event "r" 3) {
  parts = some (
      record (text_part "") { function_response = some (record { id = some "f"; name = "search" }) }
      ∷ []);
}
