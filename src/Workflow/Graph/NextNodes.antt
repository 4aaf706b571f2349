-- ===== src/Workflow/Graph/NextNodes.antt =====
-- The next nodes, described without a loop.
use adk_js.Prelude.{
  ◌≡◌, refl, String, Bool, true, false, not, ◌&&◌, ◌||◌, Option, none, some, List, [], ◌∷◌, ◌++◌,
  append-nil, append_assoc, arith, Bool-cases, inl, inr, str_eq, if◌then◌else◌,
}
use adk_js.Workflow.Graph.{
  Routes, no_route, Edge, Graph, is_default, route_strings, intersects, Pending, take_edge,
  pending_loop, get_next_pending_nodes,
}

-- The edge has a route of its own (not the default route) that the node emitted.
pub matches : Routes → Edge → Bool
matches emitted e =
    not (is_default e.route) && intersects (route_strings emitted) (route_strings e.route)

pub is_unconditional : Edge → Bool
is_unconditional e = elim e.route [ no_route ↦ true | _ ↦ false ]

pub fires : Routes → Edge → Bool
unfolding is_unconditional matches
fires emitted e = is_unconditional e || matches emitted e

pub leaves : String → Edge → Bool
leaves n e = str_eq e.from_node.name n

-- The targets of the edges of `n` that pass a test, in order.
unfoldable pub targets : String → (Edge → Bool) → List Edge → List String
targets n test [] = []
targets n test (e ∷ es) =
    let rest = targets n test es in if leaves n e && test e then e.to_node.name ∷ rest else rest

pub any_edge : String → (Edge → Bool) → List Edge → Bool
any_edge n test [] = false
any_edge n test (e ∷ es) = if leaves n e && test e then true else any_edge n test es

-- The target of the last default edge of `n`.
unfoldable pub last_default : String → List Edge → Option String
last_default n [] = none
last_default n (e ∷ es) = elim (last_default n es) [
  | some d ↦ some d
  | none ↦ if leaves n e && is_default e.route then some e.to_node.name else none
]

abbrev pub named : Option String → List String
named none = []
named (some d) = if str_eq d "" then [] else d ∷ []

abbrev or_else : Option String → Option String → Option String
or_else none o = o
or_else (some d) o = some d

intersects_nil : (rs : List String) → intersects rs [] ≡ false
intersects_nil [] = refl
intersects_nil (r ∷ rs) = intersects_nil rs

take_edge_lem :
    (n : String) (emitted : Routes) (e : Edge) (p : Pending)
    → ((take_edge emitted e p).next_pending
        ≡ p.next_pending ++ (if fires emitted e then e.to_node.name ∷ [] else []))
      × ((take_edge emitted e p).matched_specific_route
          ≡ (p.matched_specific_route || matches emitted e))
      × ((take_edge emitted e p).default_route_node
          ≡ (if is_default e.route then some e.to_node.name else p.default_route_node))
unfolding take_edge fires
take_edge_lem n emitted e p =
    ground (arith, append-nil p.next_pending, intersects_nil (route_strings emitted))

loop_lem :
    (n : String) (emitted : Routes) (es : List Edge) (p : Pending)
    → ((pending_loop n emitted es p).next_pending ≡ p.next_pending ++ targets n (fires emitted) es)
      × ((pending_loop n emitted es p).matched_specific_route
          ≡ (p.matched_specific_route || any_edge n (matches emitted) es))
      × ((pending_loop n emitted es p).default_route_node
          ≡ or_else (last_default n es) p.default_route_node)
unfolding pending_loop targets any_edge last_default leaves
loop_lem n emitted [] p = ground (arith, append-nil p.next_pending)
loop_lem n emitted (e ∷ es) p = elim (Bool-cases (leaves n e)) [
  | inl h ↦
      let (a, b, c) = loop_lem n emitted es (take_edge emitted e p) in
      let (x, y, z) = take_edge_lem n emitted e p in
      (
        ground (
          arith,
          append_assoc p.next_pending (e.to_node.name ∷ []) (targets n (fires emitted) es),
          append-nil p.next_pending,
        ),
        ground arith,
        ground arith,
      )
  | inr h ↦ let (a, b, c) = loop_lem n emitted es p in (ground arith, ground arith, ground arith)
]

-- The names returned are, in order, the targets of the node's edges that fire (unconditional ones,
-- and those with a route that the node emitted), and behind them, if no edge has an emitted route,
-- the target of the node's last default edge unless its name is empty.
pub get_next_pending_nodes_lem :
    (g : Graph) (n : String) (emitted : Routes)
    → get_next_pending_nodes g n emitted
      ≡ targets n (fires emitted) g.edges
        ++ (if any_edge n (matches emitted) g.edges then [] else named (last_default n g.edges))
unfolding get_next_pending_nodes
get_next_pending_nodes_lem g n emitted =
    let start : Pending = record {
      next_pending = [];
      matched_specific_route = false;
      default_route_node = none;
    } in
    let (a, b, c) = loop_lem n emitted g.edges start in
    ground (arith, append-nil (targets n (fires emitted) g.edges))
