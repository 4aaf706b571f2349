-- ===== src/Workflow/Graph/Nodes.antt =====
-- The nodes that the constructor of `Graph` infers (core/src/workflow/graph.ts), and where
-- `getNextPendingNodes` leads.
use mathlib.Core.Path.{subst}
use adk_js.Prelude.{
  ◌≡◌, refl, sym, ◌⊎◌, inl, inr, String, Bool, true, false, ◌&&◌, ◌||◌, Option, none, some, List,
  [], ◌∷◌, ◌++◌, All, arith, eq_iff, str_eq, ◌==◌, Bool-cases, Option-cases, if◌then◌else◌,
}
use adk_js.Workflow.Graph.{
  BaseNode, Edge, Graph, Routes, new_graph, has_node, add_node, infer_nodes, get_next_pending_nodes,
}
use adk_js.Workflow.Graph.NextNodes.{
  targets, fires, matches, any_edge, named, last_default, leaves, get_next_pending_nodes_lem,
}

-- A node has the name.
abbrev pub is_named : List BaseNode → String → Bool
is_named [] name = false
is_named (n ∷ ns) name = if str_eq n.name name then true else is_named ns name

-- The nodes at the ends of the edges.
abbrev pub ends : List Edge → List BaseNode
ends [] = []
ends (e ∷ es) = e.from_node ∷ e.to_node ∷ ends es

-- One node does not have two names.
abbrev pub agrees : BaseNode → BaseNode → Bool
agrees n m = if n.id == m.id then str_eq n.name m.name else true

abbrev pub agrees_with_all : BaseNode → List BaseNode → Bool
agrees_with_all n [] = true
agrees_with_all n (m ∷ l) = if agrees n m then agrees_with_all n l else false

abbrev pub all_agree : List BaseNode → List BaseNode → Bool
all_agree [] l = true
all_agree (n ∷ ns) l = if agrees_with_all n l then all_agree ns l else false

-- Nodes are objects: those of the edges with the same identity have the same name.
abbrev pub has_identities : List Edge → Bool
has_identities es = all_agree (ends es) (ends es)

abbrev In : BaseNode → List BaseNode → Type 0
In n [] = ⊥
In n (m ∷ l) = (n ≡ m) ⊎ In n l

agrees_with_all_of :
    (n m : BaseNode) (l : List BaseNode) → agrees_with_all n l ≡ true → In m l → agrees n m ≡ true
agrees_with_all_of n m [] h i = elim i [ ]
agrees_with_all_of n m (k ∷ l) h (inl e) =
    subst (λ x. agrees n x ≡ true) (sym e) (ground (arith, h))
agrees_with_all_of n m (k ∷ l) h (inr i) = agrees_with_all_of n m l (ground (arith, h)) i

all_agree_of :
    (n m : BaseNode) (ns l : List BaseNode)
    → all_agree ns l ≡ true
    → In n ns
    → In m l
    → agrees n m ≡ true
all_agree_of n m [] l h i j = elim i [ ]
all_agree_of n m (k ∷ ns) l h (inl e) j =
    subst (λ x. agrees x m ≡ true) (sym e) (agrees_with_all_of k m l (ground (arith, h)) j)
all_agree_of n m (k ∷ ns) l h (inr i) j = all_agree_of n m ns l (ground (arith, h)) i j

is_named-append :
    (l : List BaseNode) (n : BaseNode) (name : String)
    → is_named (l ++ n ∷ []) name ≡ (is_named l name || str_eq n.name name)
is_named-append [] n name = ground arith
is_named-append (m ∷ l) n name = ground (arith, is_named-append l n name)

add_node_keeps :
    (n : BaseNode) (l : List BaseNode) (name : String)
    → is_named l name ≡ true
    → is_named (add_node n l) name ≡ true
add_node_keeps n l name h = ground (arith, is_named-append l n name, h)

-- A node that is there has its name there.
has_node_named :
    (n : BaseNode) (l : List BaseNode)
    → All (λ m. agrees n m ≡ true) l
    → has_node n l ≡ true
    → is_named l n.name ≡ true
has_node_named n [] a h = h
has_node_named n (m ∷ l) (p, a) h =
    ground (arith, p, h, has_node_named n l a, eq_iff n.name m.name, eq_iff m.name n.name)

add_node_named :
    (n : BaseNode) (l : List BaseNode)
    → All (λ m. agrees n m ≡ true) l
    → is_named (add_node n l) n.name ≡ true
add_node_named n l a =
    ground (arith, is_named-append l n n.name, eq_iff n.name n.name, has_node_named n l a)

infer_nodes_keeps :
    (es : List Edge) (l : List BaseNode) (name : String)
    → is_named l name ≡ true
    → is_named (infer_nodes l es) name ≡ true
unfolding infer_nodes
infer_nodes_keeps [] l name h = h
infer_nodes_keeps (e ∷ es) l name h =
    infer_nodes_keeps es (add_node e.to_node (add_node e.from_node l)) name
      (add_node_keeps e.to_node (add_node e.from_node l) name (add_node_keeps e.from_node l name h))

module _ (nodes : List BaseNode) (agree : all_agree nodes nodes ≡ true) where
  agree_of : (n m : BaseNode) → In n nodes → In m nodes → agrees n m ≡ true
  agree_of n m i j = all_agree_of n m nodes nodes agree i j

  all_agrees :
      (n : BaseNode) (l : List BaseNode)
      → In n nodes
      → All (λ m. In m nodes) l
      → All (λ m. agrees n m ≡ true) l
  all_agrees n [] i a = tt
  all_agrees n (m ∷ l) i (p, a) = (agree_of n m i p, all_agrees n l i a)

  All-add_node :
      (n : BaseNode) (l : List BaseNode)
      → In n nodes
      → All (λ m. In m nodes) l
      → All (λ m. In m nodes) (add_node n l)
  All-add_node n l i a = elim (Bool-cases (has_node n l)) [
    | inl h ↦ rw h a
    | inr h ↦ rw h (All-end l a)
  ]
    where
      All-end : (l : List BaseNode) → All (λ m. In m nodes) l → All (λ m. In m nodes) (l ++ n ∷ [])
      All-end [] a = (i, tt)
      All-end (m ∷ l) (p, a) = (p, All-end l a)

  infer_nodes_named :
      (es : List Edge) (l : List BaseNode)
      → All (λ m. In m nodes) l
      → All (λ m. In m nodes) (ends es)
      → All (λ m. is_named (infer_nodes l es) m.name ≡ true) (ends es)
  unfolding infer_nodes
  infer_nodes_named [] l a b = tt
  infer_nodes_named (e ∷ es) l a (i, (j, b)) =
      let f = add_node e.from_node l in
      let g = add_node e.to_node f in
      let af = All-add_node e.from_node l i a in
      let ag = All-add_node e.to_node f j af in
      (
        infer_nodes_keeps es g e.from_node.name (
            add_node_keeps e.to_node f e.from_node.name
              (add_node_named e.from_node l (all_agrees e.from_node l i a))),
        (
          infer_nodes_keeps es g e.to_node.name
              (add_node_named e.to_node f (all_agrees e.to_node f j af)),
          infer_nodes_named es g ag b,
        ),
      )

All-In : (l : List BaseNode) → All (λ m. In m l) l
All-In l = weaken l (λ m i. i)
  where
    weaken : (k : List BaseNode) → ((m : BaseNode) → In m k → In m l) → All (λ m. In m l) k
    weaken [] f = tt
    weaken (n ∷ k) f = (f n (inl refl), weaken k (λ m i. f m (inr i)))

-- Both ends of each edge are nodes of the graph by name.
pub new_graph-named :
    (es : List Edge)
    → has_identities es ≡ true
    → All (λ m. is_named (new_graph es).nodes m.name ≡ true) (ends es)
unfolding new_graph
new_graph-named es h = infer_nodes_named (ends es) h es [] tt (All-In (ends es))

targets_named :
    (n : String) (test : Edge → Bool) (es : List Edge) (nodes : List BaseNode)
    → All (λ m. is_named nodes m.name ≡ true) (ends es)
    → All (λ t. is_named nodes t ≡ true) (targets n test es)
unfolding targets
targets_named n test [] nodes h = tt
targets_named n test (e ∷ es) nodes (f, (t, h)) = elim (Bool-cases (leaves n e && test e)) [
  | inl k ↦ rw k (t, targets_named n test es nodes h)
  | inr k ↦ rw k (targets_named n test es nodes h)
]

last_default_named :
    (n : String) (es : List Edge) (nodes : List BaseNode) (t : String)
    → All (λ m. is_named nodes m.name ≡ true) (ends es)
    → last_default n es ≡ some t
    → is_named nodes t ≡ true
unfolding last_default
last_default_named n [] nodes t h k = absurd (none_some k)
  where
    none_some : none ≡ some t → ⊥
    none_some e = cc
last_default_named n (e ∷ es) nodes t (f, (g, h)) k = elim (Option-cases (last_default n es)) [
  | inl none_behind ↦
      let D : e.to_node.name ≡ t = ground (arith, none_behind, k) in
      subst (λ x. is_named nodes x ≡ true) D g
  | inr (d, behind) ↦ last_default_named n es nodes t h (ground (arith, behind, k))
]

-- The next nodes of a node are nodes of the graph by name.
pub get_next_pending_nodes_named :
    (g : Graph) (n : String) (emitted : Routes)
    → All (λ m. is_named g.nodes m.name ≡ true) (ends g.edges)
    → All (λ t. is_named g.nodes t ≡ true) (get_next_pending_nodes g n emitted)
get_next_pending_nodes_named g n emitted h =
    let here = targets_named n (fires emitted) g.edges g.nodes h in
    rw (get_next_pending_nodes_lem g n emitted)
      (elim (Bool-cases (any_edge n (matches emitted) g.edges)) [
        | inl k ↦ rw k (All-append _ _ here tt)
        | inr k ↦ rw k (All-append _ _ here (default_named (last_default n g.edges) refl))
      ])
  where
    All-append :
        (l k : List String)
        → All (λ t. is_named g.nodes t ≡ true) l
        → All (λ t. is_named g.nodes t ≡ true) k
        → All (λ t. is_named g.nodes t ≡ true) (l ++ k)
    All-append [] k a b = b
    All-append (t ∷ l) k (p, a) b = (p, All-append l k a b)

    default_named :
        (o : Option String)
        → last_default n g.edges ≡ o
        → All (λ t. is_named g.nodes t ≡ true) (named o)
    default_named none e = tt
    default_named (some d) e = elim (Bool-cases (str_eq d "")) [
      | inl k ↦ rw k tt
      | inr k ↦ rw k (last_default_named n g.edges g.nodes d h e, tt)
    ]
