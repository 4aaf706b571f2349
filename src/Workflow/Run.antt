-- ===== src/Workflow/Run.antt =====
-- core/src/workflow/workflow.ts: the loop that schedules nodes and handles their completions. The nodes
-- run elsewhere: the environment chooses which pending task completes next, and with what. A task that
-- was resolved at once completes with its result. The report of a node's error, tracing and abort
-- signals are left out: the loop's state does not depend on them.
pub mod State
pub mod Loop
use adk_js.Prelude.{
  ℕ, suc, String, Bool, true, false, not, ◌&&◌, ◌||◌, Option, none, some, List, [], ◌∷◌, ◌++◌,
  length, ltb, leb, str_eq, if◌then◌else◌,
}
use adk_js.Prelude.Dict.{Dict, lookup, put, remove, has}
use adk_js.Prelude.Names.{contains, insert, insert_all}
use adk_js.Workflow.Graph.{
  BaseNode, Edge, Graph, Routes, no_route, start_name, get_next_pending_nodes,
}
use adk_js.Workflow.Branch.{common_prefix_of}
use adk_js.Workflow.Run.State.{
  NodeStatus, inactive, running, completed, waiting, failed, NodeState, Trigger, NodeResult,
  RehydratedNode, Execution, Task, resolved, executing, LoopState, Setting,
}

abbrev pub is_running : NodeStatus → Bool
is_running running = true
is_running _ = false

abbrev pub is_completed : NodeStatus → Bool
is_completed completed = true
is_completed _ = false

abbrev pub is_waiting : NodeStatus → Bool
is_waiting waiting = true
is_waiting _ = false

abbrev pub is_nil {ℓ} : {A : Type ℓ} → List A → Bool
is_nil [] = true
is_nil (x ∷ l) = false

abbrev pub is_none {ℓ} : {A : Type ℓ} → Option A → Bool
is_none none = true
is_none (some a) = false

abbrev pub keys {ℓ} : {A : Type ℓ} → Dict A → List String
keys [] = []
keys ((k, v) ∷ d) = k ∷ keys d

-- `nodes.find((n) => n.name === name)`
abbrev pub find_node : List BaseNode → String → Option BaseNode
find_node [] name = none
find_node (n ∷ ns) name = if str_eq n.name name then some n else find_node ns name

-- `none` is the error that the node is not in the graph.
abbrev pub get_static_node : Graph → String → Option BaseNode
get_static_node g name = find_node g.nodes name

-- The edges that leave START.
abbrev pub start_edges : List Edge → List Edge
start_edges [] = []
start_edges (e ∷ es) =
    let rest = start_edges es in if str_eq e.from_node.name start_name then e ∷ rest else rest

abbrev pub or_else {ℓ} : {A : Type ℓ} → Option A → Option A → Option A
or_else none d = d
or_else (some a) d = some a

module _ {V : Type 0} where
  abbrev pub new_loop : Dict (List (RehydratedNode V)) → LoopState V
  new_loop rehydrated = record {
    nodes = [];
    node_outputs = [];
    node_branches = [];
    trigger_buffer = [];
    pending = [];
    interrupt_ids = [];
    rehydrated = rehydrated;
    activated = [];
    error_shut_down = false;
  }

  -- `createNodeState`
  abbrev pub create_node_state : ℕ → NodeState V
  create_node_state run_counter = record {
    status = inactive;
    input = none;
    interrupts = [];
    run_counter = run_counter;
    run_id = none;
  }

  abbrev pub triggers_or_nil : Option (List (Trigger V)) → List (Trigger V)
  triggers_or_nil none = []
  triggers_or_nil (some ts) = ts

  pub push_trigger : LoopState V → String → Trigger V → LoopState V
  push_trigger l name t = record l {
    trigger_buffer =
        put name (triggers_or_nil (lookup name l.trigger_buffer) ++ t ∷ []) l.trigger_buffer;
  }

  -- The rest of the buffer, which goes when it is empty.
  abbrev pub put_rest :
      String → List (Trigger V) → Dict (List (Trigger V)) → Dict (List (Trigger V))
  put_rest name [] d = remove name d
  put_rest name (t ∷ ts) d = put name (t ∷ ts) d

  pub pop_trigger : LoopState V → String → Option (Trigger V × LoopState V)
  pop_trigger l name = elim (lookup name l.trigger_buffer) [
    | none ↦ none
    | some [] ↦ none
    | some (t ∷ ts) ↦ some (t, record l { trigger_buffer = put_rest name ts l.trigger_buffer })
  ]

  pub push_start_triggers : LoopState V → Trigger V → List Edge → LoopState V
  unfolding push_trigger
  push_start_triggers l t [] = l
  push_start_triggers l t (e ∷ es) = push_start_triggers (push_trigger l e.to_node.name t) t es

  pub seed_start_triggers : Graph → LoopState V → Option V → LoopState V
  unfolding push_start_triggers
  seed_start_triggers g l node_input =
      let edges = start_edges g.edges in
      let t : Trigger V = record {
        input = node_input;
        use_sub_branch = ltb 1 (length edges);
        branch = none;
        isolation_scope = none;
      } in
      push_start_triggers l t edges

  pub at_concurrency_limit : Setting V → LoopState V → Bool
  at_concurrency_limit c l = elim c.max_concurrency [
    | none ↦ false
    | some n ↦ leb n (length l.pending)
  ]

  abbrev pub counter_of : Option (NodeState V) → ℕ
  counter_of none = 0
  counter_of (some s) = s.run_counter

  pub prepare_node_state_for_starting : LoopState V → String → Trigger V → LoopState V
  prepare_node_state_for_starting l name t =
      let fresh = create_node_state (counter_of (lookup name l.nodes)) in
      record l { nodes = put name (record fresh { input = t.input; status = running }) l.nodes }

  -- rehydration_utils.ts
  abbrev pub all_resolved : List String → Dict V → Bool
  all_resolved [] d = true
  all_resolved (i ∷ is) d = if has i d then all_resolved is d else false

  abbrev pub is_fast_forwardable : RehydratedNode V → Bool
  is_fast_forwardable n =
      if is_none n.output && is_none n.route
      then false
      else all_resolved n.interrupt_ids n.resolved_responses

  abbrev pub make_fast_forward_result : Option String → RehydratedNode V → NodeResult V
  make_fast_forward_result branch prior = record {
    output = prior.output;
    route = prior.route;
    branch = or_else prior.branch branch;
    interrupt_ids = [];
  }

  -- The answers to all of the interrupts, if each has one.
  abbrev pub answers : List String → Dict V → Option (List V)
  answers [] d = some []
  answers (i ∷ is) d = elim (lookup i d) [
    | none ↦ none
    | some v ↦ elim (answers is d) [ none ↦ none | some vs ↦ some (v ∷ vs) ]
  ]

  -- `values.length === 1 ? values[0] : values`
  abbrev pub one_or_array : (List V → V) → List V → V
  one_or_array array_of (v ∷ []) = v
  one_or_array array_of vs = array_of vs
