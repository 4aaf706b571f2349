-- ===== src/Workflow/Validation/Tests.antt =====
-- A loop that a router can leave passes the checks; without the routes it does not.
use adk_js.Prelude.{
  ◌≡◌, refl, ◌↔◌, String, true, some, List, [], ◌∷◌, arith, eq_iff, not, ◌&&◌, map, str_eq,
}
use adk_js.Prelude.Names.{contains, insert_all}
use adk_js.Workflow.Graph.{
  BaseNode, plain_node, bool, str, Routes, no_route, one, Edge, Graph, new_graph, start_name,
}
use adk_js.Workflow.Validation.{
  ok, throws, unconditional_cycle, validate_duplicate_node_names, validate_start_node,
  validate_start_edges, validate_connectivity, validate_duplicate_edges, validate_default_routes,
  compute_terminal_nodes, targets_from, unconditional_targets, detect_unconditional_cycles,
  validate_graph, validate, reachable_from_start, names_of,
}
use adk_js.Workflow.Validation.Connectivity.{Reachable}
use adk_js.Workflow.Validation.Search.{reachable_from_start_iff}
use adk_js.Workflow.Validation.Cycles.{has_plain}
use adk_js.Workflow.Validation.Found.{Decides, detect_unconditional_cycles-Decides}
use adk_js.Workflow.Validation.Checks.{IsValid, validate_ok-IsValid, validate_ok-terminals}

abbrev pub start : BaseNode
start = plain_node 0 "__START__"

abbrev pub work : BaseNode
work = plain_node 1 "work"

abbrev pub router : BaseNode
router = plain_node 2 "router"

abbrev pub finish : BaseNode
finish = plain_node 3 "finish"

abbrev pub edge : BaseNode → BaseNode → Routes → Edge
edge a b r = record { from_node = a; to_node = b; route = r }

-- The edges of a graph whose cycle has a route.
abbrev pub loop_edges : List Edge
loop_edges =
    edge start work no_route
    ∷ edge work router no_route
    ∷ edge router work (one (str "retry"))
    ∷ edge router finish (one (bool true))
    ∷ []

abbrev pub loop : Graph
loop = new_graph loop_edges

abbrev pub checked_loop : Graph
checked_loop = record loop { terminal_node_names = "finish" ∷ [] }

pub loop_passes : validate loop ≡ ok checked_loop
unfolding validate validate_graph new_graph insert_all validate_duplicate_node_names
    validate_start_node validate_start_edges validate_connectivity validate_duplicate_edges
    validate_default_routes compute_terminal_nodes detect_unconditional_cycles reachable_from_start
    targets_from unconditional_targets
loop_passes = refl

abbrev endless : Graph
endless =
    new_graph
      (edge start work no_route ∷ edge work router no_route ∷ edge router work no_route ∷ [])

endless_fails : validate endless ≡ throws (unconditional_cycle ("work" ∷ "router" ∷ "work" ∷ []))
unfolding validate validate_graph new_graph insert_all validate_duplicate_node_names
    validate_start_node validate_start_edges validate_connectivity validate_duplicate_edges
    validate_default_routes compute_terminal_nodes detect_unconditional_cycles reachable_from_start
    targets_from unconditional_targets
endless_fails = refl

-- The error names the nodes of the cycle in the order of its edges.
long_cycle_fails :
    validate (
      new_graph (
        edge start work no_route
        ∷ edge work router no_route
        ∷ edge router finish no_route
        ∷ edge finish work no_route
        ∷ []))
    ≡ throws (unconditional_cycle ("work" ∷ "router" ∷ "finish" ∷ "work" ∷ []))
unfolding validate validate_graph new_graph insert_all validate_duplicate_node_names
    validate_start_node validate_start_edges validate_connectivity validate_duplicate_edges
    validate_default_routes compute_terminal_nodes detect_unconditional_cycles reachable_from_start
    targets_from unconditional_targets
long_cycle_fails = refl

validate_ok-IsValid_example :
    (checked_loop.nodes ≡ loop.nodes)
    × (checked_loop.edges ≡ loop.edges)
    × IsValid loop.nodes loop.edges
validate_ok-IsValid_example = validate_ok-IsValid loop checked_loop loop_passes

validate_ok-terminals_example : contains "finish" checked_loop.terminal_node_names ≡ (
    contains "finish" (names_of loop.nodes)
    && not (str_eq "finish" start_name)
    && not (contains "finish" (map (λ e. e.from_node.name) loop.edges)))
validate_ok-terminals_example = validate_ok-terminals loop checked_loop "finish" loop_passes

reachable_from_start_iff_example :
    (r : List String) × (reachable_from_start loop.edges ≡ some r)
    × ((b : String) → (contains b r ≡ true) ↔ Reachable loop.edges b)
reachable_from_start_iff_example = reachable_from_start_iff loop.edges

abbrev two : List Edge
two = edge work router no_route ∷ edge router work no_route ∷ []

abbrev two_names : List String
two_names = "work" ∷ "router" ∷ []

two_closed : (a b : String) → has_plain a b two ≡ true → contains b two_names ≡ true
unfolding unconditional_targets
two_closed a b h =
    ground (arith, eq_iff "work" a, eq_iff "router" a, eq_iff b "work", eq_iff b "router")

detect_unconditional_cycles-Decides_example :
    Decides two two_names (detect_unconditional_cycles two two_names)
detect_unconditional_cycles-Decides_example =
    detect_unconditional_cycles-Decides two two_names two_closed
