-- ===== src/Workflow/Rehydration.antt =====
-- core/src/workflow/utils/rehydration_utils.ts: which events belong to the run in progress, and the
-- earlier runs of each node that they tell of. The answers to interrupts come from
-- `resolvedInterruptResponses`, whose result is an argument here.
pub mod Answers
pub mod Runs
pub mod Reconstructed
pub mod CurrentRun
mod Tests
use adk_js.Prelude.{
  ℕ, zero, suc, String, Bool, true, false, not, ◌&&◌, ◌||◌, Option, none, some, List, [], ◌∷◌, ◌++◌,
  length, drop, str_eq, ◌==◌, ◌-◌, if◌then◌else◌,
}
use adk_js.Prelude.Dict.{Dict, lookup, put}
use adk_js.Prelude.Names.{insert_all}
use adk_js.Prelude.Text.{strip_prefix, split_on, has_char}
use adk_js.Workflow.Graph.{Routes}
use adk_js.Workflow.Run.{is_nil, is_none, or_else}
use adk_js.Workflow.Run.State.{RehydratedNode}
use Prim.Native.String.{◌++◌ as str_append}

-- What this file reads of an event: `path` is `nodeInfo.path`, `response_ids` are the ids of the function
-- responses of `content.parts`, `agent_input` is `actions.agentState.input`, and `raises_interrupt` is
-- what `requiresUserInput` says of it.
pub record NodeEvent (V : Type 0) : Type 0 where
  pub invocation_id : String
  pub author : Option String
  pub path : Option String
  pub response_ids : Option (List (Option String))
  pub output : Option V
  pub route : Option Routes
  pub branch : Option String
  pub long_running_tool_ids : List String
  pub agent_input : Option V
  pub raises_interrupt : Bool

pub record PriorRun : Type 0 where
  pub start : ℕ
  pub invocation_id : Option String
  pub paused : Bool

-- The variables of the first loop of `eventsForCurrentRun`; the newest run is first.
pub record Scan : Type 0 where
  pub prior_runs : List PriorRun
  pub current_start : Option ℕ
  pub last_invocation_id : Option String

abbrev pub same_id : Option String → Option String → Bool
same_id none none = true
same_id (some a) (some b) = str_eq a b
same_id _ _ = false

-- `event.invocationId || lastInvocationId`
abbrev pub id_or_last : String → Option String → Option String
id_or_last id last = if str_eq id "" then last else some id

-- A path that is there and not empty.
abbrev pub has_path : Option String → Bool
has_path none = false
has_path (some p) = not (str_eq p "")

abbrev pub note_run : ℕ → Option String → Bool → List PriorRun → List PriorRun
note_run i id raised [] = record { start = i; invocation_id = id; paused = raised } ∷ []
note_run i id raised (r ∷ rs) =
    if same_id r.invocation_id id
    then record r { paused = r.paused || raised } ∷ rs
    else record { start = i; invocation_id = id; paused = raised } ∷ r ∷ rs

-- The second loop: back over the runs that ended paused.
abbrev pub walk_back : ℕ → List PriorRun → ℕ
walk_back boundary [] = boundary
walk_back boundary (r ∷ rs) = if r.paused then walk_back r.start rs else boundary

abbrev pub nat_or : ℕ → Option ℕ → ℕ
nat_or d none = d
nat_or d (some n) = n

-- The variables of `reconstructRuns`: a run that owns an interrupt is given by its key and its number.
pub record Nodes (V : Type 0) : Type 0 where
  pub nodes : Dict (List (RehydratedNode V))
  pub interrupt_owner : Dict (String × ℕ)

abbrev pub own_all : String × ℕ → List String → Dict (String × ℕ) → Dict (String × ℕ)
own_all run [] d = d
own_all run (id ∷ ids) d = own_all run ids (put id run d)

-- The text before the first `@`.
abbrev pub before_at : List String → String
before_at [] = ""
before_at (s ∷ l) = s

pub direct_child_name : String → String → Option String
direct_child_name path parent = elim (strip_prefix (str_append parent ".") path) [
  | none ↦ none
  | some rest ↦ if has_char 46 rest then none else some (before_at (split_on 64 rest))
]

-- `path.split(/[./]/).pop()`, the text behind the last dot or slash.
abbrev pub last_text : List String → String
last_text [] = ""
last_text (s ∷ []) = s
last_text (s ∷ t ∷ l) = last_text (t ∷ l)

pub node_name_from_path : String → String
node_name_from_path path =
    before_at (split_on 64 (last_text (split_on 47 (last_text (split_on 46 path)))))

module _ {V : Type 0} where
  pub scan_one : String → ℕ → NodeEvent V → Scan → Scan
  scan_one current i e s =
      let id = id_or_last e.invocation_id s.last_invocation_id in
      let s' = record s { last_invocation_id = id } in
      if same_id id (some current)
      then record s' { current_start = some (nat_or i s.current_start) }
      else if has_path e.path
      then record s' { prior_runs = note_run i id e.raises_interrupt s.prior_runs }
      else s'

  pub scan : String → ℕ → List (NodeEvent V) → Scan → Scan
  unfolding scan_one
  scan current i [] s = s
  scan current i (e ∷ es) s = scan current (suc i) es (scan_one current i e s)

  pub events_for_current_run : List (NodeEvent V) → String → List (NodeEvent V)
  unfolding scan
  events_for_current_run events current =
      let s =
        scan current 0 events
          (record { prior_runs = []; current_start = none; last_invocation_id = none }) in
      drop (walk_back (nat_or (length events) s.current_start) s.prior_runs) events

  abbrev pub is_run_closed : RehydratedNode V → Bool
  is_run_closed n =
      not (is_none n.output) || (not (is_none n.route) || not (is_nil n.interrupt_ids))

  abbrev pub new_run : RehydratedNode V
  new_run = record {
    output = none;
    route = none;
    branch = none;
    input = none;
    interrupt_ids = [];
    resolved_responses = [];
  }

  -- What a node's event adds to the run it belongs to.
  abbrev pub add_event : NodeEvent V → RehydratedNode V → RehydratedNode V
  add_event e n = record {
    output = or_else e.output n.output;
    route = or_else e.route n.route;
    branch = if is_none e.output then n.branch else e.branch;
    input = or_else e.agent_input n.input;
    interrupt_ids = insert_all n.interrupt_ids e.long_running_tool_ids;
    resolved_responses = n.resolved_responses;
  }

  -- `currentRun`, and the event: the last run if it is open, or a new one behind it.
  abbrev pub add_to_runs : NodeEvent V → List (RehydratedNode V) → List (RehydratedNode V)
  add_to_runs e [] = add_event e new_run ∷ []
  add_to_runs e (n ∷ []) =
      if is_run_closed n then n ∷ add_event e new_run ∷ [] else add_event e n ∷ []
  add_to_runs e (n ∷ m ∷ ns) = n ∷ add_to_runs e (m ∷ ns)

  abbrev pub runs_or_nil : Option (List (RehydratedNode V)) → List (RehydratedNode V)
  runs_or_nil none = []
  runs_or_nil (some ns) = ns

  -- An answer that reaches the run with the number.
  abbrev pub answer_at : ℕ → String → V → List (RehydratedNode V) → List (RehydratedNode V)
  answer_at i id v [] = []
  answer_at zero id v (n ∷ ns) =
      record n { resolved_responses = put id v n.resolved_responses } ∷ ns
  answer_at (suc i) id v (n ∷ ns) = n ∷ answer_at i id v ns

  -- The number of the last run.
  abbrev pub last_index : List (RehydratedNode V) → ℕ
  last_index [] = 0
  last_index (n ∷ []) = 0
  last_index (n ∷ m ∷ ns) = suc (last_index (m ∷ ns))

  abbrev pub add_node_event : String → NodeEvent V → Nodes V → Nodes V
  add_node_event key e s =
      let runs = add_to_runs e (runs_or_nil (lookup key s.nodes)) in
      record {
        nodes = put key runs s.nodes;
        interrupt_owner = own_all (key, last_index runs) e.long_running_tool_ids s.interrupt_owner;
      }

  abbrev pub answer_one : String → Option V → Option (String × ℕ) → Nodes V → Nodes V
  answer_one id none owner s = s
  answer_one id (some v) none s = s
  answer_one id (some v) (some (key, i)) s = record s {
    nodes = put key (answer_at i id v (runs_or_nil (lookup key s.nodes))) s.nodes;
  }

  abbrev pub answer_all : Dict V → List (Option String) → Nodes V → Nodes V
  answer_all resolved [] s = s
  answer_all resolved (none ∷ ids) s = answer_all resolved ids s
  answer_all resolved (some id ∷ ids) s = answer_all resolved ids (
      if str_eq id ""
      then s
      else answer_one id (lookup id resolved) (lookup id s.interrupt_owner) s)

  -- The responses of a user's event with content; another event is one of a node, or of none.
  abbrev pub user_responses : NodeEvent V → Option (List (Option String))
  user_responses e = if same_id e.author (some "user") then e.response_ids else none

  abbrev pub add_keyed : Option String → NodeEvent V → Nodes V → Nodes V
  add_keyed none e s = s
  add_keyed (some key) e s = if str_eq key "" then s else add_node_event key e s

  abbrev pub step_of :
      Option (List (Option String)) → Option String → Dict V → NodeEvent V → Nodes V → Nodes V
  step_of (some ids) key resolved e s = answer_all resolved ids s
  step_of none key resolved e s = add_keyed key e s

  pub reconstruct_step : (NodeEvent V → Option String) → Dict V → NodeEvent V → Nodes V → Nodes V
  reconstruct_step key_for resolved e s = step_of (user_responses e) (key_for e) resolved e s

  pub reconstruct_loop :
      (NodeEvent V → Option String) → Dict V → List (NodeEvent V) → Nodes V → Nodes V
  unfolding reconstruct_step
  reconstruct_loop key_for resolved [] s = s
  reconstruct_loop key_for resolved (e ∷ es) s =
      reconstruct_loop key_for resolved es (reconstruct_step key_for resolved e s)

  pub reconstruct_runs :
      List (NodeEvent V) → (NodeEvent V → Option String) → Dict V → Dict (List (RehydratedNode V))
  unfolding reconstruct_loop
  reconstruct_runs events key_for resolved =
      (reconstruct_loop key_for resolved events (record { nodes = []; interrupt_owner = [] })).nodes

  abbrev pub key_in : Option String → NodeEvent V → Option String
  key_in none e = none
  key_in (some parent) e = elim e.path [ none ↦ none | some path ↦ direct_child_name path parent ]

  pub key_of : NodeEvent V → Option String
  unfolding node_name_from_path
  key_of e = elim e.path [ none ↦ e.author | some path ↦ some (node_name_from_path path) ]

  -- `keyFn`; an empty path counts as absent.
  pub key_fn : Option String → NodeEvent V → Option String
  unfolding direct_child_name key_of
  key_fn parent e =
      let e' = record e { path = if has_path e.path then e.path else none } in
      if has_path parent then key_in parent e' else key_of e'

  pub reconstruct_node_runs :
      List (NodeEvent V) → Option String → Dict V → Dict (List (RehydratedNode V))
  unfolding reconstruct_runs key_fn
  reconstruct_node_runs events parent resolved = reconstruct_runs events (key_fn parent) resolved
