-- ===== src/Workflow/Run/Loop/Progress.antt =====
-- A loop of a valid graph goes on: core/src/workflow/workflow.ts does not throw where it looks a node up.
use mathlib.Core.Path.{subst}
use adk_js.Prelude.{
  ◌≡◌, inl, inr, String, true, false, ◌&&◌, Option, List, [], ◌∷◌, All, arith, str_eq, Bool-cases,
}
use adk_js.Prelude.Dict.{Dict, remove, has}
use adk_js.Prelude.Names.{insert_all}
use adk_js.Workflow.Graph.{Edge, start_name, new_graph, get_next_pending_nodes}
use adk_js.Workflow.Graph.Nodes.{
  is_named, ends, has_identities, new_graph-named, get_next_pending_nodes_named,
}
use adk_js.Workflow.Validation.{ok, validate}
use adk_js.Workflow.Validation.Checks.{validate_ok-IsValid}
use adk_js.Workflow.Run.State.{RehydratedNode, LoopState, Setting, NodeResult, Trigger, waiting}
use adk_js.Workflow.Run.{
  push_trigger, seed_start_triggers, push_start_triggers, new_loop, start_edges, is_nil, is_none,
}
use adk_js.Workflow.Run.Loop.{
  buffer_downstream_triggers, handle_completion, complete_round, begin, Reaches, begins, completes,
  completed_loop, with_node, state_of, route_or_null, downstream_trigger,
}
use adk_js.Workflow.Run.Loop.Consistent.{has-remove}
use adk_js.Workflow.Run.Loop.Known.{
  IsKnown, Goes, find_node_named, schedule_ready_nodes-Goes, push_trigger-IsKnown, buffer_all-Goes,
}

module _ {V : Type 0} (c : Setting V) where
  module _
      (edges_named : All (λ m. is_named c.graph.nodes m.name ≡ true) (ends c.graph.edges)) where
    handle_completion-Goes :
        (l : LoopState V) (name : String) (r : NodeResult V)
        → is_named c.graph.nodes name ≡ true
        → IsKnown c l
        → Goes c (handle_completion c l name r)
    unfolding handle_completion buffer_downstream_triggers
    handle_completion-Goes l name r h k =
        let (node, found) = find_node_named c.graph.nodes name h in
        elim (Bool-cases (is_nil r.interrupt_ids)) [
          | inr asks ↦ (
            record (with_node l name
                (record (state_of l name) { status = waiting; interrupts = r.interrupt_ids })) {
                  interrupt_ids = insert_all l.interrupt_ids r.interrupt_ids;
                },
            ground (arith, found, asks),
            record { tasks = k.tasks; triggers = k.triggers },
          )
          | inl done ↦
              elim (Bool-cases (node.wait_for_output && (is_none r.output && is_none r.route))) [
                | inl waits ↦ (
                  with_node l name (record (state_of l name) { status = waiting }),
                  ground (arith, found, done, waits),
                  record { tasks = k.tasks; triggers = k.triggers },
                )
                | inr gives ↦
                    let named =
                      get_next_pending_nodes_named c.graph name (route_or_null c r.route)
                        edges_named in
                    let next_nodes =
                      get_next_pending_nodes c.graph name (route_or_null c r.route) in
                    let t = downstream_trigger c r next_nodes in
                    let (l', d, k') =
                      buffer_all-Goes c next_nodes (completed_loop l name r) t named
                        (record { tasks = k.tasks; triggers = k.triggers }) in
                    (l', ground (arith, found, done, gives, d), k')
              ]
        ]

    removed-IsKnown :
        (l : LoopState V) (name : String)
        → IsKnown c l
        → IsKnown c (record l { pending = remove name l.pending })
    removed-IsKnown l name k = record {
      tasks = λ n h. k.tasks n (ground (arith, has-remove name n l.pending, h));
      triggers = k.triggers;
    }

    complete_round-Goes :
        (l : LoopState V) (name : String) (r : NodeResult V)
        → has name l.pending ≡ true
        → IsKnown c l
        → Goes c (complete_round c l name r)
    unfolding complete_round
    complete_round-Goes l name r h k =
        let (m, e, km) =
          handle_completion-Goes (record l { pending = remove name l.pending }) name r
            (k.tasks name h) (removed-IsKnown l name k) in
        let (l', d, k') = schedule_ready_nodes-Goes c m km in (l', ground (arith, e, d), k')

    push_start_triggers-IsKnown :
        (es : List Edge) (l : LoopState V) (t : Trigger V)
        → All (λ m. is_named c.graph.nodes m.name ≡ true) (ends es)
        → IsKnown c l
        → IsKnown c (push_start_triggers l t (start_edges es))
    unfolding push_start_triggers
    push_start_triggers-IsKnown [] l t h k = k
    push_start_triggers-IsKnown (e ∷ es) l t (_, (there, h)) k =
        elim (Bool-cases (str_eq e.from_node.name start_name)) [
          | inl s ↦ rw s (
              push_start_triggers-IsKnown es (push_trigger l e.to_node.name t) t h
                (push_trigger-IsKnown c l e.to_node.name t there k))
          | inr s ↦ rw s (push_start_triggers-IsKnown es l t h k)
        ]

    pub begin-Goes :
        (rehydrated : Dict (List (RehydratedNode V))) (v : Option V) → Goes c (begin c rehydrated v)
    unfolding begin seed_start_triggers
    begin-Goes rehydrated v =
        schedule_ready_nodes-Goes c (seed_start_triggers c.graph (new_loop rehydrated) v) (
          push_start_triggers-IsKnown c.graph.edges (new_loop rehydrated) _ edges_named (record {
            tasks = λ n h. absurd (false_not_true h);
            triggers = λ n h. absurd (false_not_true h);
          }))
      where
        false_not_true : false ≡ true → ⊥
        false_not_true h = cc

    Reaches-IsKnown :
        (rehydrated : Dict (List (RehydratedNode V))) (v : Option V) (l : LoopState V)
        → Reaches c rehydrated v l
        → IsKnown c l
    Reaches-IsKnown rehydrated v l (begins h) =
        let (m, e, k) = begin-Goes rehydrated v in let D : m ≡ l = cc in subst (IsKnown c) D k
    Reaches-IsKnown rehydrated v l' (completes {l = l} name task r reached there _ h) =
        let k = Reaches-IsKnown rehydrated v l reached in
        let (m, e, km) = complete_round-Goes l name r (ground (arith, there)) k in
        let D : m ≡ l' = cc in subst (IsKnown c) D km

  valid_named :
      (edges : List Edge)
      → has_identities edges ≡ true
      → validate (new_graph edges) ≡ ok c.graph
      → All (λ m. is_named c.graph.nodes m.name ≡ true) (ends c.graph.edges)
  unfolding new_graph
  valid_named edges ids valid =
      let (nodes, same, _) = validate_ok-IsValid (new_graph edges) c.graph valid in
      rw (nodes, same) (new_graph-named edges ids)

  -- In a workflow whose graph is built of edges (between nodes that are told apart by identity) and
  -- passes its validation, the loop does not throw "Node not found": it begins, and wherever it is
  -- reached, whichever pending task completes, and with whatever result, it goes on to a next loop,
  -- whose pending tasks and buffered triggers belong to nodes of the graph.
  pub Reaches-Goes :
      (edges : List Edge) (rehydrated : Dict (List (RehydratedNode V))) (v : Option V)
      (l : LoopState V) (name : String) (r : NodeResult V)
      → has_identities edges ≡ true
      → validate (new_graph edges) ≡ ok c.graph
      → Reaches c rehydrated v l
      → has name l.pending ≡ true
      → Goes c (begin c rehydrated v) × Goes c (complete_round c l name r)
  Reaches-Goes edges rehydrated v l name r ids valid h there =
      let named = valid_named edges ids valid in
      (
        begin-Goes named rehydrated v,
        complete_round-Goes named l name r there (Reaches-IsKnown named rehydrated v l h),
      )
