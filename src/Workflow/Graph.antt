-- ===== src/Workflow/Graph.antt =====
-- core/src/workflow/graph.ts: edges, routes, the nodes of a graph and the step to the next nodes.
-- The debug log of `getNextPendingNodes` is left out: it changes nothing.
pub mod NextNodes
pub mod Nodes
mod Tests
use adk_js.Prelude.{
  ℕ, String, Bool, true, false, not, ◌&&◌, Option, none, some, List, [], ◌∷◌, ◌++◌, map, str_eq,
  ◌==◌, if◌then◌else◌,
}
use adk_js.Prelude.Names.{contains}

-- A node, compared by identity (`id`) in the constructor of `Graph`, and by name elsewhere, with what
-- the orchestration of a workflow asks of it. Its behaviour stands with the environment.
pub record BaseNode : Type 0 where
  pub id : ℕ
  pub name : String
  pub rerun_on_resume : Bool
  pub wait_for_output : Bool
  pub requires_all_predecessors : Bool

-- A node with the defaults of its configuration.
abbrev pub plain_node : ℕ → String → BaseNode
plain_node id name = record {
  id = id;
  name = name;
  rerun_on_resume = false;
  wait_for_output = false;
  requires_all_predecessors = false;
}

-- The constant `START` of base_node.ts: its name.
abbrev pub start_name : String
start_name = "__START__"

-- A number is kept as the text that `String(n)` gives; no code here looks at it otherwise.
pub data RouteValue : Type 0 where
  bool : Bool → RouteValue
  num : String → RouteValue
  str : String → RouteValue

-- `String(route)`
abbrev pub route_string : RouteValue → String
route_string (bool true) = "true"
route_string (bool false) = "false"
route_string (num s) = s
route_string (str s) = s

abbrev pub default_route : String
default_route = "__DEFAULT__"

-- `RouteValue | RouteValue[] | null`: of an edge, or as emitted by a node. An omitted route of an
-- edge is `null` by the constructor's default; an omitted emitted route is treated as `null`.
pub data Routes : Type 0 where
  no_route : Routes
  one : RouteValue → Routes
  many : List RouteValue → Routes

pub record Edge : Type 0 where
  pub from_node : BaseNode
  pub to_node : BaseNode
  pub route : Routes

abbrev pub has_node : BaseNode → List BaseNode → Bool
has_node n [] = false
has_node n (m ∷ l) = if n.id == m.id then true else has_node n l

abbrev pub add_node : BaseNode → List BaseNode → List BaseNode
add_node n l = if has_node n l then l else l ++ n ∷ []

-- The loop of the constructor: the nodes of the edges, each once, in order of appearance.
pub infer_nodes : List BaseNode → List Edge → List BaseNode
infer_nodes seen [] = seen
infer_nodes seen (e ∷ es) = infer_nodes (add_node e.to_node (add_node e.from_node seen)) es

pub record Graph : Type 0 where
  pub nodes : List BaseNode
  pub edges : List Edge
  pub terminal_node_names : List String

unfoldable pub new_graph : List Edge → Graph
unfolding infer_nodes
new_graph edges = record { nodes = infer_nodes [] edges; edges = edges; terminal_node_names = [] }

-- `edge.route === DEFAULT_ROUTE`
abbrev pub is_default : Routes → Bool
is_default (one (str s)) = str_eq s default_route
is_default _ = false

-- The routes of a conditional edge, and the emitted routes, as strings.
abbrev pub route_strings : Routes → List String
route_strings no_route = []
route_strings (one r) = route_string r ∷ []
route_strings (many rs) = map route_string rs

abbrev pub intersects : List String → List String → Bool
intersects [] known = false
intersects (r ∷ rs) known = if contains r known then true else intersects rs known

-- The variables of the loop of `getNextPendingNodes`.
record Pending : Type 0 where
  next_pending : List String
  matched_specific_route : Bool
  default_route_node : Option String

-- One round of the loop, for an edge of the node.
take_edge : Routes → Edge → Pending → Pending
take_edge emitted e p = elim e.route [
  | no_route ↦ record p { next_pending = p.next_pending ++ e.to_node.name ∷ [] }
  | one r ↦
      if is_default (one r)
      then record p { default_route_node = some e.to_node.name }
      else if intersects (route_strings emitted) (route_string r ∷ [])
      then record p {
        next_pending = p.next_pending ++ e.to_node.name ∷ [];
        matched_specific_route = true;
      }
      else p
  | many rs ↦
      if intersects (route_strings emitted) (map route_string rs)
      then record p {
        next_pending = p.next_pending ++ e.to_node.name ∷ [];
        matched_specific_route = true;
      }
      else p
]

pending_loop : String → Routes → List Edge → Pending → Pending
unfolding take_edge
pending_loop n emitted [] p = p
pending_loop n emitted (e ∷ es) p =
    pending_loop n emitted es (if str_eq e.from_node.name n then take_edge emitted e p else p)

-- `if (!matchedSpecificRoute && defaultRouteNode)`, where an empty name counts as absent.
add_default : Pending → List String
add_default p = elim p.default_route_node [
  | none ↦ p.next_pending
  | some d ↦
      if not p.matched_specific_route && not (str_eq d "")
      then p.next_pending ++ d ∷ []
      else p.next_pending
]

unfoldable pub get_next_pending_nodes : Graph → String → Routes → List String
unfolding pending_loop add_default
get_next_pending_nodes g n emitted = add_default (
    pending_loop n emitted g.edges
      (record { next_pending = []; matched_specific_route = false; default_route_node = none }))
