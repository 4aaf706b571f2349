-- ===== src/Workflow/Run/Loop/Tests.antt =====
-- Runs of two workflows. In the first, START leads to `a` and `b`, and both lead to `join`, which waits
-- for both. In the second, START leads to `a` and `b`, and `b` leads to `a`.
use adk_js.Prelude.{ℕ, ◌≡◌, refl, ◌⊎◌, String, true, Option, none, some, List, [], ◌∷◌, map, arith}
use adk_js.Prelude.Dict.{lookup, has}
use adk_js.Workflow.Graph.{BaseNode, plain_node, start_name, Edge, Graph, no_route, new_graph}
use adk_js.Workflow.Validation.Tests.{loop_edges, checked_loop, loop_passes}
use adk_js.Prelude.Names.{insert_all}
use adk_js.Workflow.Graph.{get_next_pending_nodes}
use adk_js.Workflow.Run.State.{NodeResult, LoopState, Setting}
use adk_js.Workflow.Run.{seed_start_triggers, new_loop}
use adk_js.Workflow.Run.Loop.{
  schedule, visit, schedule_ready_nodes, complete_round, begin, Reaches, begins, completes,
  finalize, finished,
}
use adk_js.Workflow.Run.Loop.Consistent.{IsConsistent}
use adk_js.Workflow.Run.Loop.Invariant.{Reaches-IsConsistent}
use adk_js.Workflow.Run.Loop.Quiet.{Reaches-quiet, waits_for_answers, EndsInterrupted}
use adk_js.Workflow.Run.Loop.Progress.{Reaches-Goes}
use adk_js.Workflow.Run.Loop.Known.{Goes}

abbrev root : BaseNode
root = plain_node 0 start_name

abbrev edge : BaseNode → BaseNode → Edge
edge n m = record { from_node = n; to_node = m; route = no_route }

abbrev join : BaseNode
join = record (plain_node 3 "join") { requires_all_predecessors = true }

abbrev a : BaseNode
a = plain_node 1 "a"

abbrev b : BaseNode
b = plain_node 2 "b"

abbrev join_edges : List Edge
join_edges = edge root a ∷ edge root b ∷ edge a join ∷ edge b join ∷ []

abbrev graph_of : List Edge → List String → Graph
graph_of edges terminals = record (new_graph edges) { terminal_node_names = terminals }

-- Values are lists of texts.
abbrev setting_of : Graph → Option ℕ → Setting (List String)
setting_of graph bound = record {
  graph = graph;
  max_concurrency = bound;
  branch = none;
  resume_inputs = ("i", "yes" ∷ []) ∷ [];
  object_of = λ outputs. map (λ o. o.0) outputs;
  array_of = λ vs. [];
}

abbrev joins : Setting (List String)
joins = setting_of (graph_of join_edges ("join" ∷ [])) (some 1)

abbrev result : Option (List String) → List String → NodeResult (List String)
result output ids = record { output = output; route = none; branch = none; interrupt_ids = ids }

abbrev or_new : Option (LoopState (List String)) → LoopState (List String)
or_new none = new_loop []
or_new (some l) = l

abbrev begun : Setting (List String) → LoopState (List String)
begun c = or_new (begin c [] (some ("input" ∷ [])))

abbrev then_completes :
    Setting (List String)
    → LoopState (List String)
    → String
    → NodeResult (List String)
    → LoopState (List String)
then_completes c l name r = or_new (complete_round c l name r)

pending_names : LoopState (List String) → List String
pending_names l = map (λ p. p.0) l.pending

abbrev joins_1 : LoopState (List String)
joins_1 = begun joins

abbrev joins_2 : LoopState (List String)
joins_2 = then_completes joins joins_1 "a" (result (some ("left" ∷ [])) [])

abbrev joins_3 : LoopState (List String)
joins_3 = then_completes joins joins_2 "b" (result (some ("right" ∷ [])) [])

abbrev joins_4 : LoopState (List String)
joins_4 = then_completes joins joins_3 "join" (result (some ("both" ∷ [])) [])

-- With a bound of one, `a` runs, then `b`, and then `join`.
bound_of_one :
    (pending_names joins_1 ≡ "a" ∷ [])
    × (pending_names joins_2 ≡ "b" ∷ [])
    × (pending_names joins_3 ≡ "join" ∷ [])
    × (pending_names joins_4 ≡ [])
unfolding pending_names begin seed_start_triggers schedule_ready_nodes schedule visit new_graph
    complete_round get_next_pending_nodes insert_all
bound_of_one = (refl, refl, refl, refl)

joins_finish : finalize joins joins_4 [] ≡ finished (some ("both" ∷ []))
unfolding begin seed_start_triggers schedule_ready_nodes schedule visit new_graph complete_round
    finalize insert_all get_next_pending_nodes
joins_finish = refl

joins_1-Reaches : Reaches joins [] (some ("input" ∷ [])) joins_1
unfolding begin seed_start_triggers schedule_ready_nodes schedule visit new_graph
joins_1-Reaches = begins refl

Reaches-IsConsistent_example : IsConsistent joins joins_1
Reaches-IsConsistent_example =
    Reaches-IsConsistent joins [] (some ("input" ∷ [])) joins_1 joins_1-Reaches

-- `b` leads to `a`, which waits for the answer to an interrupt.
abbrev waits : Setting (List String)
waits = setting_of (graph_of (edge root a ∷ edge root b ∷ edge b a ∷ []) ("a" ∷ [])) (some 2)

abbrev waits_1 : LoopState (List String)
waits_1 = begun waits

abbrev waits_2 : LoopState (List String)
waits_2 = then_completes waits waits_1 "a" (result none ("j" ∷ []))

abbrev waits_3 : LoopState (List String)
waits_3 = then_completes waits waits_2 "b" (result (some ("done" ∷ [])) [])

waits_3-Reaches : Reaches waits [] (some ("input" ∷ [])) waits_3
unfolding begin seed_start_triggers schedule_ready_nodes schedule visit new_graph complete_round
    insert_all get_next_pending_nodes
waits_3-Reaches =
    completes "b" _ (result (some ("done" ∷ [])) [])
      (completes "a" _ (result none ("j" ∷ [])) (begins {l = waits_1} refl) refl tt refl) refl tt
      refl

waits_3-nothing_pending : waits_3.pending ≡ []
unfolding begin seed_start_triggers schedule_ready_nodes schedule visit new_graph complete_round
    insert_all get_next_pending_nodes
waits_3-nothing_pending = refl

-- The trigger that `b` gave is left, since `a` waits.
left_over : has "a" waits_3.trigger_buffer ≡ true
unfolding begin seed_start_triggers schedule_ready_nodes schedule visit new_graph complete_round
    insert_all get_next_pending_nodes
left_over = refl

Reaches-quiet_example :
    (lookup "a" waits_3.trigger_buffer ≡ none)
    ⊎ ((waits_for_answers (lookup "a" waits_3.nodes) ≡ true) × EndsInterrupted waits waits_3 [])
Reaches-quiet_example =
    Reaches-quiet waits [] (some ("input" ∷ [])) waits_3 "a" [] (omega arith) waits_3-Reaches
      waits_3-nothing_pending

abbrev retries : Setting (List String)
retries = setting_of checked_loop none

abbrev retries_1 : LoopState (List String)
retries_1 = begun retries

retries_1-Reaches : Reaches retries [] (some ("input" ∷ [])) retries_1
unfolding begin seed_start_triggers schedule_ready_nodes schedule visit new_graph
retries_1-Reaches = begins refl

work_pending : has "work" retries_1.pending ≡ true
unfolding begin seed_start_triggers schedule_ready_nodes schedule visit new_graph
work_pending = refl

Reaches-Goes_example :
    Goes retries (begin retries [] (some ("input" ∷ [])))
    × Goes retries (complete_round retries retries_1 "work" (result (some ("x" ∷ [])) []))
Reaches-Goes_example =
    Reaches-Goes retries loop_edges [] (some ("input" ∷ [])) retries_1 "work"
      (result (some ("x" ∷ [])) []) refl loop_passes retries_1-Reaches work_pending
