-- ===== src/Workflow/Validation.antt =====
-- core/src/workflow/utils/graph_validation.ts: the checks that a graph passes before it runs, and
-- its terminal nodes. An error keeps the names of its message, unsorted; the wording is left out.
pub mod Connectivity
pub mod Search
pub mod Cycles
pub mod Found
pub mod Checks
pub mod Tests
use adk_js.Prelude.{
  ℕ, zero, suc, String, Bool, true, false, not, ◌&&◌, Option, none, some, List, [], ◌∷◌, ◌++◌, map,
  length, ltb, str_eq, if◌then◌else◌,
}
use adk_js.Prelude.Names.{contains, insert, insert_all}
use adk_js.Workflow.Graph.{
  BaseNode, start_name, route_string, default_route, Routes, no_route, one, many, Edge, Graph,
  is_default, new_graph,
}

pub data GraphError : Type 0 where
  duplicate_node_names : List String → GraphError
  start_not_found : GraphError
  routed_start_edge : String → GraphError
  unreachable_nodes : List String → GraphError
  start_has_incoming_edge : GraphError
  duplicate_edge : String → String → GraphError
  default_route_in_list : String → String → GraphError
  multiple_default_routes : String → GraphError
  unconditional_cycle : List String → GraphError
  out_of_fuel : GraphError

pub data Result {ℓ} (A : Type ℓ) : Type ℓ where
  throws : GraphError → Result A
  ok : A → Result A

infixl 5 ◌>>=◌ ◌>>◌
abbrev pub ◌>>=◌ {ℓ κ} : {A : Type ℓ} {B : Type κ} → Result A → (A → Result B) → Result B
throws error >>= rest = throws error
ok a >>= rest = rest a

abbrev pub ◌>>◌ {ℓ} : {B : Type ℓ} → Result (Unit {0}) → Result B → Result B
m >> k = m >>= λ _. k

-- `if (bad.length > 0) throw …`
abbrev throw_if_any : List String → GraphError → Result (Unit {0})
throw_if_any [] e = ok tt
throw_if_any (n ∷ ns) e = throws e

abbrev count : String → List String → ℕ
count n [] = 0
count n (m ∷ l) = let rest = count n l in if str_eq n m then suc rest else rest

abbrev keep : (String → Bool) → List String → List String
keep p [] = []
keep p (n ∷ l) = if p n then n ∷ keep p l else keep p l

abbrev names_of : List BaseNode → List String
names_of nodes = map (λ n. n.name) nodes

validate_duplicate_node_names : List BaseNode → Result (List String)
validate_duplicate_node_names nodes = do
  let names = insert_all [] (names_of nodes)
  let duplicates = keep (λ n. ltb 1 (count n (names_of nodes))) names
  throw_if_any duplicates (duplicate_node_names duplicates)
  ok names

validate_start_node : List String → Result (Unit {0})
validate_start_node names = if contains start_name names then ok tt else throws start_not_found

abbrev is_routed : Edge → Bool
is_routed e = elim e.route [ no_route ↦ false | _ ↦ true ]

validate_start_edges : List Edge → Result (Unit {0})
validate_start_edges [] = ok tt
validate_start_edges (e ∷ es) =
    if str_eq e.from_node.name start_name && is_routed e
    then throws (routed_start_edge e.to_node.name)
    else validate_start_edges es

-- `adj.get(n)`: the set of the targets of the edges from `n`.
pub targets_from : String → List String → List Edge → List String
targets_from n found [] = found
targets_from n found (e ∷ es) =
    targets_from n (if str_eq e.from_node.name n then insert e.to_node.name found else found) es

abbrev push_new : List String → List String → List String → List String
push_new reachable [] stack = stack
push_new reachable (n ∷ ns) stack =
    push_new reachable ns (if contains n reachable then stack else n ∷ stack)

-- The `while` loop; the top of the stack is the head. `none` means that the fuel ran out.
pub search_loop : ℕ → List Edge → List String → List String → Option (List String)
search_loop zero edges stack reachable = none
search_loop (suc f) edges [] reachable = some reachable
search_loop (suc f) edges (n ∷ stack) reachable =
    let skip = search_loop f edges stack reachable in
    let visit =
      search_loop f edges (push_new (n ∷ reachable) (targets_from n [] edges) stack)
        (n ∷ reachable) in
    if contains n reachable then skip else visit

abbrev has_incoming : String → List Edge → Bool
has_incoming n [] = false
has_incoming n (e ∷ es) = if str_eq e.to_node.name n then true else has_incoming n es

pub reachable_from_start : List Edge → Option (List String)
unfolding search_loop
reachable_from_start edges = search_loop (suc (suc (length edges))) edges (start_name ∷ []) []

validate_connectivity : List Edge → List String → Result (Unit {0})
validate_connectivity edges names = elim (reachable_from_start edges) [
  | none ↦ throws out_of_fuel
  | some reachable ↦ do
    let unreachable = keep (λ n. not (contains n reachable)) names
    throw_if_any unreachable (unreachable_nodes unreachable)
    if has_incoming start_name edges then throws start_has_incoming_edge else ok tt
]

-- The key of an edge under one of its routes; `none` is the key of an unconditional edge.
pub record EdgeKey : Type 0 where
  pub from : String
  pub to : String
  pub route : Option String

abbrev same_route : Option String → Option String → Bool
same_route none none = true
same_route (some a) (some b) = str_eq a b
same_route _ _ = false

abbrev same_key : EdgeKey → EdgeKey → Bool
same_key a b = str_eq a.from b.from && str_eq a.to b.to && same_route a.route b.route

abbrev has_key : EdgeKey → List EdgeKey → Bool
has_key k [] = false
has_key k (j ∷ l) = if same_key k j then true else has_key k l

abbrev edge_routes : Routes → List (Option String)
edge_routes no_route = none ∷ []
edge_routes (one r) = some (route_string r) ∷ []
edge_routes (many rs) = map (λ r. some (route_string r)) rs

abbrev pub edge_keys : Edge → List EdgeKey
edge_keys e =
    map (λ r. record { from = e.from_node.name; to = e.to_node.name; route = r })
      (edge_routes e.route)

add_keys : List EdgeKey → List EdgeKey → Result (List EdgeKey)
add_keys seen [] = ok seen
add_keys seen (k ∷ ks) =
    if has_key k seen then throws (duplicate_edge k.from k.to) else add_keys (k ∷ seen) ks

validate_duplicate_edges : List EdgeKey → List Edge → Result (Unit {0})
unfolding add_keys
validate_duplicate_edges seen [] = ok tt
validate_duplicate_edges seen (e ∷ es) = elim (add_keys seen (edge_keys e)) [
  | throws c ↦ throws c
  | ok seen' ↦ validate_duplicate_edges seen' es
]

-- `Array.isArray(route) && route.includes(DEFAULT_ROUTE)`
abbrev lists_default : Routes → Bool
lists_default (many []) = false
lists_default (many (r ∷ rs)) = if is_default (one r) then true else lists_default (many rs)
lists_default _ = false

validate_default_routes : List String → List Edge → Result (Unit {0})
validate_default_routes froms [] = ok tt
validate_default_routes froms (e ∷ es) =
    let rest = validate_default_routes froms es in
    let marked = validate_default_routes (e.from_node.name ∷ froms) es in
    if lists_default e.route
    then throws (default_route_in_list e.from_node.name e.to_node.name)
    else if is_default e.route
    then (if contains e.from_node.name froms
        then throws (multiple_default_routes e.from_node.name)
        else marked)
    else rest

-- The targets of the unconditional edges from `n`, with repetitions.
pub unconditional_targets : String → List Edge → List String
unconditional_targets n [] = []
unconditional_targets n (e ∷ es) =
    let rest = unconditional_targets n es in
    if str_eq e.from_node.name n && not (is_routed e) then e.to_node.name ∷ rest else rest

-- `[...path.slice(path.indexOf(m)), m]` behind its first name, in the order of the visits.
abbrev cut : String → List String → List String → List String
cut m [] behind = behind
cut m (n ∷ path) behind = if str_eq n m then behind else cut m path (n ∷ behind)

-- The loop over the neighbors of a node, or over all names, given `dfs`. `path` has its last node
-- at the head and serves as `inStack` too, since both hold the same names; `done` is a set.
pub visit_neighbors :
    (String → List String → List String → Result (List String))
    → List String
    → List String
    → List String
    → Result (List String)
visit_neighbors dfs path done [] = ok done
visit_neighbors dfs path done (m ∷ ms) =
    let later = visit_neighbors dfs path done ms in
    if contains m path
    then throws (unconditional_cycle (m ∷ cut m path (m ∷ [])))
    else if contains m done
    then later
    else (elim (dfs m path done) [
      | throws e ↦ throws e
      | ok done' ↦ visit_neighbors dfs path done' ms
    ])

abbrev finish : String → List String → List String
finish n done = if contains n done then done else n ∷ done

pub dfs : ℕ → List Edge → String → List String → List String → Result (List String)
unfolding visit_neighbors
dfs zero edges n path done = throws out_of_fuel
dfs (suc f) edges n path done =
    elim (visit_neighbors (dfs f edges) (n ∷ path) done (unconditional_targets n edges)) [
      | throws e ↦ throws e
      | ok done' ↦ ok (finish n done')
    ]

pub detect_unconditional_cycles : List Edge → List String → Result (List String)
unfolding dfs
detect_unconditional_cycles edges names =
    visit_neighbors (dfs (suc (length names)) edges) [] [] names

abbrev is_terminal : List Edge → BaseNode → Bool
is_terminal edges n =
    not (str_eq n.name start_name) && not (contains n.name (map (λ e. e.from_node.name) edges))

terminal_names : List BaseNode → List Edge → List String
terminal_names [] edges = []
terminal_names (n ∷ ns) edges =
    let rest = terminal_names ns edges in if is_terminal edges n then n.name ∷ rest else rest

compute_terminal_nodes : List BaseNode → List Edge → List String
unfolding terminal_names
compute_terminal_nodes nodes edges = insert_all [] (terminal_names nodes edges)

pub validate_graph : List BaseNode → List Edge → Result (List String)
validate_graph nodes edges = do
  names ← validate_duplicate_node_names nodes
  validate_start_node names
  validate_start_edges edges
  validate_connectivity edges names
  validate_duplicate_edges [] edges
  validate_default_routes [] edges
  _ ← detect_unconditional_cycles edges names
  ok (compute_terminal_nodes nodes edges)

-- `Graph.validate`, on the graph that `new Graph(edges)` builds.
pub validate : Graph → Result Graph
validate g = do
  terminals ← validate_graph g.nodes g.edges
  ok (record g { terminal_node_names = terminals })
