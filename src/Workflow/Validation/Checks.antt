-- ===== src/Workflow/Validation/Checks.antt =====
-- What a graph that passed `validate` has.
use adk_js.Prelude.{
  ◌≤◌, ◌≡◌, refl, ◌⊎◌, inl, inr, String, Bool, true, false, not, ◌&&◌, List, [], ◌∷◌, map, All,
  arith, eq_iff, Bool-cases, str_eq, ltb,
}
use adk_js.Prelude.Names.{
  contains, insert_all, contains_head, contains_tail, contains_cases, contains-insert_all,
  All-of_contains, AllDistinct,
}
use adk_js.Workflow.Graph.{BaseNode, start_name, Edge, Graph, no_route}
use adk_js.Workflow.Validation.{
  ok, keep, count, names_of, validate_duplicate_node_names, validate_start_node,
  validate_start_edges, validate_connectivity, detect_unconditional_cycles, compute_terminal_nodes,
  terminal_names, validate_graph, validate, has_incoming,
}
use adk_js.Workflow.Validation.Connectivity.{Reachable}
use adk_js.Workflow.Validation.Search.{reachable_from_start_iff}
use adk_js.Workflow.Validation.Cycles.{PlainPath, acyclic_of_ok}

keep_nil :
    (p : String → Bool) (l : List String) (n : String)
    → keep p l ≡ []
    → contains n l ≡ true
    → p n ≡ false
keep_nil p [] n e h = cc
keep_nil p (m ∷ l) n e h = elim (Bool-cases (p m)) [
  | inl k ↦ cc (rw k at e)
  | inr k ↦ elim (contains_cases n m l h) [
    | inl same ↦ rw same k
    | inr old ↦ keep_nil p l n (rw k at e) old
  ]
]

count_zero : (n : String) (l : List String) → count n l ≤ 0 → contains n l ≡ false
count_zero n [] h = refl
count_zero n (m ∷ l) h = ground (arith, count_zero n l)

-- Names that each occur at most once are distinct.
distinct_of_count :
    (l : List String) → ((n : String) → contains n l ≡ true → count n l ≤ 1) → AllDistinct l
distinct_of_count [] h = tt
distinct_of_count (m ∷ l) h = (
  count_zero m l (ground (arith, h m (contains_head m l), eq_iff m m)),
  distinct_of_count l (λ n k. ground (arith, h n (contains_tail n m l k))),
)

names_checked :
    (nodes : List BaseNode) (names : List String)
    → validate_duplicate_node_names nodes ≡ ok names
    → (names ≡ insert_all [] (names_of nodes)) × AllDistinct (names_of nodes)
unfolding validate_duplicate_node_names
names_checked nodes names e =
    let all = names_of nodes in
    let test = λ (n : String). ltb 1 (count n all) in
    let none_twice : keep test (insert_all [] all) ≡ [] = ground arith in
    (
      ground arith,
      distinct_of_count all (λ n h. ground (
        arith,
        keep_nil test (insert_all [] all) n none_twice
            (ground (arith, contains-insert_all n [] all)),
      )),
    )

connectivity_checked :
    (edges : List Edge) (names : List String)
    → validate_connectivity edges names ≡ ok tt
    → All (Reachable edges) names × (has_incoming start_name edges ≡ false)
unfolding validate_connectivity
connectivity_checked edges names e =
    let (r, found, iff) = reachable_from_start_iff edges in
    let test = λ (n : String). not (contains n r) in
    let all : keep test names ≡ [] = ground arith in
    (
      All-of_contains names (Reachable edges)
          (λ n h. (iff n).0 (ground (arith, keep_nil test names n all h))),
      ground arith,
    )

-- An edge from START has no route.
abbrev pub PlainStart : Edge → Type 0
PlainStart e = (str_eq e.from_node.name start_name ≡ false) ⊎ (e.route ≡ no_route)

start_edges_checked :
    (edges : List Edge) → validate_start_edges edges ≡ ok tt → All PlainStart edges
unfolding validate_start_edges
start_edges_checked [] e = tt
start_edges_checked (x ∷ es) e = (ground arith, start_edges_checked es (ground arith))

-- A valid workflow graph: names identify nodes, START is there with unrouted edges out and no edge
-- in, every node can be reached from START, and no node lies on a cycle of unconditional edges.
pub record IsValid (nodes : List BaseNode) (edges : List Edge) : Type 0 where
  pub distinct : AllDistinct (names_of nodes)
  pub has_start : contains start_name (names_of nodes) ≡ true
  pub start_edges : All PlainStart edges
  pub reachable : All (Reachable edges) (names_of nodes)
  pub start_first : has_incoming start_name edges ≡ false
  pub acyclic : All (λ n. ¬ PlainPath edges n n) (names_of nodes)

abbrev Passed : List BaseNode → List Edge → List String → Type 0
Passed nodes edges ts =
    (names : List String) × (validate_duplicate_node_names nodes ≡ ok names)
    × (validate_start_node names ≡ ok tt)
    × (validate_start_edges edges ≡ ok tt)
    × (validate_connectivity edges names ≡ ok tt)
    × ((done : List String) × (detect_unconditional_cycles edges names ≡ ok done))
    × (compute_terminal_nodes nodes edges ≡ ts)

Passed-of_ok :
    (nodes : List BaseNode) (edges : List Edge) (ts : List String)
    → validate_graph nodes edges ≡ ok ts
    → Passed nodes edges ts
unfolding validate_graph
Passed-of_ok nodes edges ts e = ground arith

All-names :
    (P : String → Type 0) (nodes : List BaseNode) (names : List String)
    → names ≡ insert_all [] (names_of nodes)
    → All P names
    → ((n : String) → contains n names ≡ true → P n)
    → All P (names_of nodes)
All-names P nodes names e h at =
    All-of_contains (names_of nodes) P
      (λ n k. at n (ground (arith, e, k, contains-insert_all n [] (names_of nodes))))

All-at :
    (P : String → Type 0) (l : List String) → All P l → (n : String) → contains n l ≡ true → P n
All-at P [] h n k = cc
All-at P (m ∷ l) (p, h) n k = elim (contains_cases n m l k) [
  | inl same ↦ rw same p
  | inr old ↦ All-at P l h n old
]

IsValid-of_ok :
    (nodes : List BaseNode) (edges : List Edge) (ts : List String)
    → validate_graph nodes edges ≡ ok ts
    → IsValid nodes edges
unfolding validate_start_node
IsValid-of_ok nodes edges ts e =
    let (names, named, started, plain, connected, (done, cycles), terminals) =
      Passed-of_ok nodes edges ts e in
    let (same, distinct) = names_checked nodes names named in
    let (reachable, first) = connectivity_checked edges names connected in
    record {
      distinct = distinct;
      has_start = ground (arith, contains-insert_all start_name [] (names_of nodes), same, started);
      start_edges = start_edges_checked edges plain;
      reachable =
          All-names (Reachable edges) nodes names same reachable
            (All-at (Reachable edges) names reachable);
      start_first = first;
      acyclic =
          All-of_contains (names_of nodes) (λ n. ¬ PlainPath edges n n)
            (λ n k.
              acyclic_of_ok edges names done n cycles
                (ground (arith, same, k, contains-insert_all n [] (names_of nodes))));
    }

validated :
    (g g' : Graph)
    → validate g ≡ ok g'
    → (ts : List String) × (validate_graph g.nodes g.edges ≡ ok ts)
      × (ok (record g { terminal_node_names = ts }) ≡ ok g')
unfolding validate
validated g g' e = ground arith

-- A graph that `validate` accepts is kept as it is but for its terminal names, and is valid: its
-- names are distinct, START is there, without incoming edges and with unrouted outgoing ones only,
-- every node can be reached from START, and no node lies on a cycle of unconditional edges.
pub validate_ok-IsValid :
    (g g' : Graph)
    → validate g ≡ ok g'
    → (g'.nodes ≡ g.nodes) × (g'.edges ≡ g.edges) × IsValid g.nodes g.edges
validate_ok-IsValid g g' e =
    let (ts, h, same) = validated g g' e in
    (ground arith, ground arith, IsValid-of_ok g.nodes g.edges ts h)

contains-terminal_names :
    (n : String) (nodes : List BaseNode) (edges : List Edge)
    → contains n (terminal_names nodes edges) ≡ (
        contains n (names_of nodes)
        && not (str_eq n start_name)
        && not (contains n (map (λ e. e.from_node.name) edges)))
unfolding terminal_names
contains-terminal_names n [] edges = refl
contains-terminal_names n (m ∷ nodes) edges =
    ground (arith, contains-terminal_names n nodes edges, eq_iff n m.name)

-- The terminal names of a graph that `validate` accepts are exactly the names of its nodes other
-- than START that no edge leaves.
pub validate_ok-terminals :
    (g g' : Graph) (n : String)
    → validate g ≡ ok g'
    → contains n g'.terminal_node_names ≡ (
        contains n (names_of g.nodes)
        && not (str_eq n start_name)
        && not (contains n (map (λ e. e.from_node.name) g.edges)))
unfolding compute_terminal_nodes
validate_ok-terminals g g' n e =
    let (ts, h, same) = validated g g' e in
    let (names, _, _, _, _, _, terminals) = Passed-of_ok g.nodes g.edges ts h in
    let here : g'.terminal_node_names ≡ insert_all [] (terminal_names g.nodes g.edges) =
      ground arith in
    rw (here, contains-insert_all) (contains-terminal_names n g.nodes g.edges)
