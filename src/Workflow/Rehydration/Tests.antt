-- ===== src/Workflow/Rehydration/Tests.antt =====
-- A turn that answers an interrupt of the turn before.
use adk_js.Prelude.{
  ℕ, ◌≡◌, ◌≤◌, refl, String, true, false, Option, none, some, [], ◌∷◌, ◌++◌, length, drop,
}
use adk_js.Prelude.Dict.{lookup}
use adk_js.Prelude.Names.{insert_all}
use adk_js.Workflow.Rehydration.{
  NodeEvent, events_for_current_run, reconstruct_node_runs, runs_or_nil, new_run,
  node_name_from_path,
}
use adk_js.Workflow.Rehydration.Answers.{AnswersOwn}
use adk_js.Workflow.Rehydration.Runs.{AreRunsOrNone}
use adk_js.Workflow.Rehydration.Reconstructed.{reconstruct_node_runs-AreRuns}
use adk_js.Workflow.Rehydration.CurrentRun.{events_for_current_run_lem}

abbrev event : String → Option String → NodeEvent ℕ
event invocation path = record {
  invocation_id = invocation;
  author = some "flow";
  path = path;
  response_ids = none;
  output = none;
  route = none;
  branch = none;
  long_running_tool_ids = [];
  agent_input = none;
  raises_interrupt = false;
}

abbrev draft : NodeEvent ℕ
draft = record (event "i1" (some "flow.draft")) { output = some 7 }

abbrev asks : NodeEvent ℕ
asks = record (event "i1" (some "flow.review@1")) {
  long_running_tool_ids = "q" ∷ [];
  agent_input = some 7;
  raises_interrupt = true;
}

abbrev answer : NodeEvent ℕ
answer = record (event "i2" none) { author = some "user"; response_ids = some (some "q" ∷ []) }

-- The paused turn belongs to the run in progress.
keeps_paused : events_for_current_run (draft ∷ asks ∷ answer ∷ []) "i2" ≡ draft ∷ asks ∷ answer ∷ []
unfolding events_for_current_run
keeps_paused = refl

-- A turn that ended does not.
drops_finished : events_for_current_run (draft ∷ answer ∷ []) "i2" ≡ answer ∷ []
unfolding events_for_current_run
drops_finished = refl

-- Where a paused turn comes behind the start of the current one, the start is left out.
start_left_out : events_for_current_run (answer ∷ asks ∷ []) "i2" ≡ asks ∷ []
unfolding events_for_current_run
start_left_out = refl

review_is_answered :
    lookup "review"
      (reconstruct_node_runs (draft ∷ asks ∷ answer ∷ []) (some "flow") (("q", 9) ∷ []))
    ≡ some (
        record new_run {
          input = some 7;
          interrupt_ids = "q" ∷ [];
          resolved_responses = ("q", 9) ∷ [];
        }
        ∷ [])
unfolding reconstruct_node_runs insert_all
review_is_answered = refl

name_of_leaf : node_name_from_path "flow.sub/review@2" ≡ "review"
unfolding node_name_from_path
name_of_leaf = refl

reconstruct_node_runs-AreRuns_example :
    AreRunsOrNone (
      lookup "review"
        (reconstruct_node_runs (draft ∷ asks ∷ answer ∷ []) (some "flow") (("q", 9) ∷ [])))
    × AnswersOwn (
        runs_or_nil (
          lookup "review"
            (reconstruct_node_runs (draft ∷ asks ∷ answer ∷ []) (some "flow") (("q", 9) ∷ []))))
reconstruct_node_runs-AreRuns_example =
    reconstruct_node_runs-AreRuns (draft ∷ asks ∷ answer ∷ []) (some "flow") (("q", 9) ∷ [])
      "review"

events_for_current_run_lem_example :
    (k : ℕ) × (k ≤ length (draft ∷ asks ∷ []))
    × (events_for_current_run ((draft ∷ asks ∷ []) ++ answer ∷ []) "i2"
        ≡ drop k (draft ∷ asks ∷ []) ++ answer ∷ [])
events_for_current_run_lem_example =
    events_for_current_run_lem "i2" refl (draft ∷ asks ∷ []) (answer ∷ []) (refl, tt)
