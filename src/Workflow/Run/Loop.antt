-- ===== src/Workflow/Run/Loop.antt =====
-- The operations of the loop: starting tasks, completing them, and the end.
pub mod Consistent
pub mod Starting
pub mod Scheduling
pub mod Completing
pub mod Invariant
pub mod Quiet
pub mod Known
pub mod Progress
mod Tests
use adk_js.Prelude.{
  ℕ, suc, ◌≡◌, String, Bool, true, false, not, ◌&&◌, ◌||◌, Option, none, some, List, [], ◌∷◌, ◌++◌,
  map, length, ltb, leb, str_eq, if◌then◌else◌,
}
use adk_js.Prelude.Dict.{Dict, lookup, put, remove, has}
use adk_js.Prelude.Names.{contains, insert, insert_all}
use adk_js.Workflow.Graph.{BaseNode, Edge, Graph, Routes, no_route, get_next_pending_nodes}
use adk_js.Workflow.Branch.{common_prefix_of}
use adk_js.Workflow.Run.State.{
  NodeStatus, running, completed, waiting, failed, NodeState, Trigger, NodeResult, RehydratedNode,
  Execution, Task, resolved, executing, LoopState, Setting,
}
use adk_js.Workflow.Run.{
  is_running, is_completed, is_waiting, is_nil, is_none, or_else, keys, get_static_node,
  push_trigger, pop_trigger, at_concurrency_limit, prepare_node_state_for_starting,
  is_fast_forwardable, make_fast_forward_result, answers, one_or_array, seed_start_triggers,
  new_loop, create_node_state,
}

-- `branch ?? ''`
abbrev pub branch_or_empty : Option String → String
branch_or_empty none = ""
branch_or_empty (some b) = b

module _ {V : Type 0} where
  abbrev pub with_pending : LoopState V → String → Task V → LoopState V
  with_pending l name t = record l { pending = put name t l.pending }

  -- `loop.rehydrated.get(name)?.shift()`: the earlier run, and the loop without it.
  abbrev pub take_prior : LoopState V → String → Option (RehydratedNode V) × LoopState V
  take_prior l name =
      elim (lookup name l.rehydrated) as (λ _. Option (RehydratedNode V) × LoopState V) [
        | none ↦ (none, l)
        | some [] ↦ (none, l)
        | some (r ∷ rs) ↦ (some r, record l { rehydrated = put name rs l.rehydrated })
      ]

  -- The run id of the node, which is counted up unless it has one.
  abbrev pub with_run_id : NodeState V → NodeState V
  with_run_id s = elim s.run_id [
    | some i ↦ s
    | none ↦ record s { run_counter = suc s.run_counter; run_id = some (suc s.run_counter) }
  ]

  -- `loop.nodes.get(name)!`; the state is there, since it was prepared.
  abbrev pub state_of : LoopState V → String → NodeState V
  state_of l name = elim (lookup name l.nodes) [ none ↦ create_node_state 0 | some s ↦ s ]

  -- A node whose triggers stay in the buffer: it runs, or it waits for the answers to interrupts.
  abbrev pub is_held : Option (NodeState V) → Bool
  is_held none = false
  is_held (some s) = is_running s.status || (is_waiting s.status && not (is_nil s.interrupts))

  abbrev pub with_node : LoopState V → String → NodeState V → LoopState V
  with_node l name s = record l { nodes = put name s l.nodes }

  abbrev pub with_output : String → Option V → Dict V → Dict V
  with_output name none d = d
  with_output name (some v) d = put name v d

  -- The node has completed, and its output and branch are kept.
  abbrev pub completed_loop : LoopState V → String → NodeResult V → LoopState V
  completed_loop l name r =
      record (with_node l name (record (state_of l name) { status = completed })) {
        node_outputs = with_output name r.output l.node_outputs;
        node_branches = put name (branch_or_empty r.branch) l.node_branches;
      }

module _ {V : Type 0} (c : Setting V) where
  -- The result of a node that was interrupted in an earlier turn and does not run again, if its
  -- interrupts are answered.
  abbrev pub resume_result : BaseNode → RehydratedNode V → Option (NodeResult V)
  resume_result node prior =
      if not node.rerun_on_resume && (is_none prior.output && not (is_nil prior.interrupt_ids))
      then (elim (answers prior.interrupt_ids c.resume_inputs) as (λ _. Option (NodeResult V)) [
        | none ↦ none
        | some vs ↦ some (record {
          output = some (one_or_array c.array_of vs);
          route = none;
          branch = or_else prior.branch c.branch;
          interrupt_ids = [];
        })
      ])
      else none

  -- The result that an earlier run settles, if it does.
  abbrev pub settled : BaseNode → Option (RehydratedNode V) → Option (NodeResult V)
  settled node none = none
  settled node (some prior) =
      if is_fast_forwardable prior
      then some (make_fast_forward_result c.branch prior)
      else resume_result node prior

  -- A waiting node runs again with its first input.
  abbrev pub input_for : Option (RehydratedNode V) → Trigger V → Option V
  input_for none t = t.input
  input_for (some prior) t =
      if not (is_nil prior.interrupt_ids) && not (is_none prior.input) then prior.input else t.input

  -- `none` is the error of a node that is not in the graph.
  pub start_node_task : LoopState V → String → Trigger V → Option (LoopState V)
  start_node_task l name t = elim (get_static_node c.graph name) [
    | none ↦ none
    | some node ↦
        let repeat_activation = contains name l.activated in
        let (prior, l') = take_prior (record l { activated = insert name l.activated }) name in
        let state = with_run_id (state_of l name) in
        elim (settled node prior) [
          | some r ↦ some (with_pending l' name (resolved r))
          | none ↦ some (
              with_pending (record l' { nodes = put name state l'.nodes }) name
                (executing (record {
                  run_id = state.run_id;
                  input = input_for prior t;
                  repeat_activation = repeat_activation;
                  use_sub_branch = t.use_sub_branch;
                  branch = t.branch;
                  isolation_scope = t.isolation_scope;
                })))
        ]
  ]

  -- What one round of `scheduleReadyNodes` does.
  pub data Visit : Type 0 where
    skip : Visit
    stop : Visit
    start : LoopState V → Visit
    throw : Visit

  abbrev visit_of_start : Option (LoopState V) → Visit
  visit_of_start none = throw
  visit_of_start (some l) = start l

  pub visit : LoopState V → String → Visit
  unfolding pop_trigger prepare_node_state_for_starting start_node_task at_concurrency_limit
  visit l name =
      if has name l.pending || is_held (lookup name l.nodes)
      then skip
      else if at_concurrency_limit c l
      then stop
      else (elim (pop_trigger l name) [
        | none ↦ skip
        | some (t, l') ↦
            visit_of_start (start_node_task (prepare_node_state_for_starting l' name t) name t)
      ])

  -- The loop, over the names that the buffer had when it began.
  pub schedule : LoopState V → List String → Option (LoopState V)
  unfolding visit
  schedule l [] = some l
  schedule l (name ∷ names) = elim (visit l name) [
    | skip ↦ schedule l names
    | stop ↦ some l
    | start l' ↦ schedule l' names
    | throw ↦ none
  ]

  pub schedule_ready_nodes : LoopState V → Option (LoopState V)
  unfolding schedule
  schedule_ready_nodes l = schedule l (keys l.trigger_buffer)

  -- The names of the nodes with an edge to this one, each once.
  abbrev pub sources : String → List Edge → List String
  sources name [] = []
  sources name (e ∷ es) =
      let rest = sources name es in
      if str_eq e.to_node.name name then e.from_node.name ∷ rest else rest

  abbrev pub predecessors : String → List String
  predecessors name = insert_all [] (sources name c.graph.edges)

  abbrev pub completed_in : LoopState V → String → Bool
  completed_in l p = elim (lookup p l.nodes) [ none ↦ false | some s ↦ is_completed s.status ]

  abbrev pub all_completed : LoopState V → List String → Bool
  all_completed l [] = true
  all_completed l (p ∷ ps) = if completed_in l p then all_completed l ps else false

  abbrev pub outputs_of : LoopState V → List String → List (String × Option V)
  outputs_of l [] = []
  outputs_of l (p ∷ ps) = (p, lookup p l.node_outputs) ∷ outputs_of l ps

  abbrev pub branches_of : LoopState V → List String → List String
  branches_of l [] = []
  branches_of l (p ∷ ps) = branch_or_empty (lookup p l.node_branches) ∷ branches_of l ps

  -- `commonBranch || undefined`
  abbrev pub nonempty : String → Option String
  nonempty s = if str_eq s "" then none else some s

  abbrev pub join_trigger : LoopState V → String → Trigger V
  join_trigger l target = record {
    input = some (c.object_of (outputs_of l (predecessors target)));
    use_sub_branch = false;
    branch = nonempty (common_prefix_of (branches_of l (predecessors target)));
    isolation_scope = none;
  }

  -- One round of the loop of `bufferDownstreamTriggers`.
  pub buffer_one : LoopState V → Trigger V → String → Option (LoopState V)
  unfolding push_trigger
  buffer_one l t target = elim (get_static_node c.graph target) [
    | none ↦ none
    | some node ↦
        if node.requires_all_predecessors
        then (if all_completed l (predecessors target)
            then some (push_trigger l target (join_trigger l target))
            else some l)
        else some (push_trigger l target t)
  ]

  pub buffer_all : LoopState V → Trigger V → List String → Option (LoopState V)
  unfolding buffer_one
  buffer_all l t [] = some l
  buffer_all l t (target ∷ targets) = elim (buffer_one l t target) [
    | none ↦ none
    | some l' ↦ buffer_all l' t targets
  ]

  abbrev pub route_or_null : Option Routes → Routes
  route_or_null none = no_route
  route_or_null (some r) = r

  -- The trigger of the targets that do not wait for all of their predecessors.
  abbrev pub downstream_trigger : NodeResult V → List String → Trigger V
  downstream_trigger r next_nodes = record {
    input = r.output;
    use_sub_branch = ltb 1 (length next_nodes);
    branch = r.branch;
    isolation_scope = none;
  }

  pub buffer_downstream_triggers : LoopState V → String → NodeResult V → Option (LoopState V)
  unfolding buffer_all
  buffer_downstream_triggers l name r =
      let next_nodes = get_next_pending_nodes c.graph name (route_or_null r.route) in
      buffer_all l (downstream_trigger r next_nodes) next_nodes

  pub handle_completion : LoopState V → String → NodeResult V → Option (LoopState V)
  unfolding buffer_downstream_triggers
  handle_completion l name r =
      let s = state_of l name in
      elim (get_static_node c.graph name) [
        | none ↦ none
        | some node ↦
            if not (is_nil r.interrupt_ids)
            then some
                (record (with_node l name
                  (record s { status = waiting; interrupts = r.interrupt_ids })) {
                    interrupt_ids = insert_all l.interrupt_ids r.interrupt_ids;
                  })
            else if node.wait_for_output && (is_none r.output && is_none r.route)
            then some (with_node l name (record s { status = waiting }))
            else buffer_downstream_triggers (completed_loop l name r) name r
      ]

  -- A round of the loop in which the task of a node completed: the loop before the next race.
  pub complete_round : LoopState V → String → NodeResult V → Option (LoopState V)
  unfolding handle_completion schedule_ready_nodes
  complete_round l name r =
      elim (handle_completion (record l { pending = remove name l.pending }) name r) [
        | none ↦ none
        | some l' ↦ schedule_ready_nodes l'
      ]

  -- The round in which a task failed, after which the error is thrown.
  pub fail_round : LoopState V → String → LoopState V
  fail_round l name = record l {
    nodes = (elim (lookup name l.nodes) as (λ _. Dict (NodeState V)) [
      | none ↦ l.nodes
      | some s ↦ put name (record s { status = failed }) l.nodes
    ]);
    pending = [];
    error_shut_down = true;
  }

  -- The loop before its first race.
  pub begin : Dict (List (RehydratedNode V)) → Option V → Option (LoopState V)
  unfolding seed_start_triggers schedule_ready_nodes
  begin rehydrated node_input =
      schedule_ready_nodes (seed_start_triggers c.graph (new_loop rehydrated) node_input)

  -- `collectRemainingInterrupts`
  abbrev pub collect : List String → Dict (NodeState V) → List String
  collect ids [] = ids
  collect ids ((name, s) ∷ d) =
      collect (if is_waiting s.status then insert_all ids s.interrupts else ids) d

  -- How `finalize` leaves the context, or the error of several terminal outputs.
  pub data Final : Type 0 where
    interrupted : List String → Final
    finished : Option V → Final
    multiple_outputs : ℕ → Final

  abbrev pub terminal_outputs : List String → Dict V → List V
  terminal_outputs [] d = []
  terminal_outputs (n ∷ ns) d = elim (lookup n d) [
    | none ↦ terminal_outputs ns d
    | some v ↦ v ∷ terminal_outputs ns d
  ]

  abbrev pub final_of_outputs : List V → Final
  final_of_outputs [] = finished none
  final_of_outputs (v ∷ []) = finished (some v)
  final_of_outputs vs = multiple_outputs (length vs)

  abbrev pub final_of : LoopState V → List String → Final
  final_of l [] = final_of_outputs (terminal_outputs c.graph.terminal_node_names l.node_outputs)
  final_of l (i ∷ is) = interrupted (i ∷ is)

  -- The end of `orchestrate`; the interrupts of dynamic children come with the context.
  pub finalize : LoopState V → List String → Final
  finalize l dynamic = final_of l (insert_all (collect l.interrupt_ids l.nodes) dynamic)

  -- A task completes with the result that it was resolved with, or with any that its run gives.
  abbrev pub Gives : Task V → NodeResult V → Type 0
  Gives (resolved r) r' = r' ≡ r
  Gives (executing e) r' = Unit

  -- The loops before a race, whatever the order in which tasks complete and their results.
  pub data Reaches (rehydrated : Dict (List (RehydratedNode V))) (node_input : Option V)
      : LoopState V → Type 0 where
    begins :
        {l : LoopState V} → begin rehydrated node_input ≡ some l → Reaches rehydrated node_input l
    completes :
        {l l' : LoopState V} (name : String) (task : Task V) (r : NodeResult V)
        → Reaches rehydrated node_input l
        → lookup name l.pending ≡ some task
        → Gives task r
        → complete_round l name r ≡ some l'
        → Reaches rehydrated node_input l'
