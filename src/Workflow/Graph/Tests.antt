-- ===== src/Workflow/Graph/Tests.antt =====
-- The next nodes of a router with three edges.
use adk_js.Prelude.{◌≡◌, refl, [], ◌∷◌, ◌++◌, if◌then◌else◌}
use adk_js.Workflow.Graph.{
  BaseNode, plain_node, str, num, one, many, Graph, new_graph, default_route,
  get_next_pending_nodes,
}
use adk_js.Workflow.Graph.NextNodes.{
  targets, fires, any_edge, matches, named, last_default, get_next_pending_nodes_lem,
}

abbrev router : BaseNode
router = plain_node 0 "router"

abbrev approve : BaseNode
approve = plain_node 1 "approve"

abbrev refuse : BaseNode
refuse = plain_node 2 "refuse"

abbrev other : BaseNode
other = plain_node 3 "other"

abbrev graph : Graph
graph = new_graph (
    record { from_node = router; to_node = approve; route = one (str "2") }
    ∷ record { from_node = router; to_node = refuse; route = many (str "no" ∷ str "never" ∷ []) }
    ∷ record { from_node = router; to_node = other; route = one (str default_route) }
    ∷ [])

next_of_number : get_next_pending_nodes graph "router" (one (num "2")) ≡ "approve" ∷ []
unfolding get_next_pending_nodes new_graph
next_of_number = refl

next_of_unknown : get_next_pending_nodes graph "router" (one (str "maybe")) ≡ "other" ∷ []
unfolding get_next_pending_nodes new_graph
next_of_unknown = refl

get_next_pending_nodes_lem_example :
    get_next_pending_nodes graph "router" (one (num "2"))
    ≡ targets "router" (fires (one (num "2"))) graph.edges
      ++ (if any_edge "router" (matches (one (num "2"))) graph.edges
          then []
          else named (last_default "router" graph.edges))
get_next_pending_nodes_lem_example = get_next_pending_nodes_lem graph "router" (one (num "2"))
