-- ===== src/Graph/Edges.antt =====
-- The edges of the graph: between two different nodes, at most one for a pair.
use feedo.Base.{
  ◌≡◌, refl, ℕ, ◌+◌, ◌*◌, ◌<◌, ◌≤◌, ◌==◌, ◌≢◌, List, [], ◌∷◌, ◌++◌, Bool, true, false, ◌||◌, All,
  length, length-append, arith, inl, inr, Bool-cases,
}
use feedo.Graph.{Edge, joins, exists_edge, connect, connect_node, connect_nodes, init_edges}

-- Two different nodes of `n`.
abbrev pub IsProper : ℕ → Edge → Type 0
IsProper n e = (e.i < n) × (e.j < n) × (e.i ≢ e.j)

-- No edge joins the nodes of a later one.
abbrev pub IsSimple : List Edge → Type 0
IsSimple [] = Unit
IsSimple (e ∷ edges) = (exists_edge e.i e.j edges ≡ false) × IsSimple edges

abbrev pub IsGraph : ℕ → List Edge → Type 0
IsGraph n edges = All (IsProper n) edges × IsSimple edges

joins_sym :
    (i j : ℕ) (e : Edge) → joins i j e ≡ false → joins e.i e.j (record { i = i; j = j }) ≡ false
joins_sym i j e h = ground arith

pub or_false : (a b : Bool) → (a || b) ≡ false → (a ≡ false) × (b ≡ false)
or_false true b h = cc
or_false false b h = (refl, h)

exists_edge-snoc :
    (i j : ℕ) (edges : List Edge) (e : Edge)
    → exists_edge i j edges ≡ false
    → joins i j e ≡ false
    → exists_edge i j (edges ++ e ∷ []) ≡ false
unfolding exists_edge
exists_edge-snoc i j [] e h here = rw (here) refl
exists_edge-snoc i j (f ∷ edges) e h here =
    let (not_f, others) = or_false (joins i j f) (exists_edge i j edges) h in
    rw (not_f) (exists_edge-snoc i j edges e others here)

IsSimple-snoc :
    (edges : List Edge) (e : Edge)
    → IsSimple edges
    → exists_edge e.i e.j edges ≡ false
    → IsSimple (edges ++ e ∷ [])
unfolding exists_edge
IsSimple-snoc [] e simple new = (refl, tt)
IsSimple-snoc (f ∷ edges) e (first, simple) new =
    let (not_f, others) = or_false (joins e.i e.j f) (exists_edge e.i e.j edges) new in
    (
      exists_edge-snoc f.i f.j edges e first (joins_sym e.i e.j f not_f),
      IsSimple-snoc edges e simple others,
    )

All-snoc :
    (P : Edge → Type 0) (edges : List Edge) (e : Edge) → All P edges → P e → All P (edges ++ e ∷ [])
All-snoc P [] e h here = (here, tt)
All-snoc P (f ∷ edges) e (first, h) here = (first, All-snoc P edges e h here)

-- How many edges a round adds at most.
connect-IsGraph :
    (n i target : ℕ) (edges : List Edge)
    → i < n
    → target < n
    → IsGraph n edges
    → IsGraph n (connect i target edges) × (length (connect i target edges) ≤ length edges + 1)
unfolding connect
connect-IsGraph n i target edges lt lt' (proper, simple) = elim (Bool-cases (target == i)) [
  | inl same ↦ rw (same) ((proper, simple), omega arith)
  | inr other ↦ elim (Bool-cases (exists_edge i target edges)) [
    | inl there ↦ rw (other, there) ((proper, simple), omega arith)
    | inr new ↦
        rw (other, new)
          (
            (
              All-snoc (IsProper n) edges _ proper (lt, lt', (λ same. absurd (ground arith))),
              IsSimple-snoc edges _ simple new,
            ),
            (let size = length-append edges (record { i = i; j = target } ∷ []) in omega arith),
          )
  ]
]

connect_node-IsGraph :
    (n i : ℕ) (targets : List ℕ) (edges : List Edge)
    → i < n
    → All (λ target. target < n) targets
    → IsGraph n edges
    → IsGraph n (connect_node i targets edges)
      × (length (connect_node i targets edges) ≤ length edges + length targets)
unfolding connect_node
connect_node-IsGraph n i [] edges lt hs graph = (graph, omega arith)
connect_node-IsGraph n i (target ∷ targets) edges lt (h, hs) graph =
    let (next, size) = connect-IsGraph n i target edges lt h graph in
    let (last, sizes) = connect_node-IsGraph n i targets (connect i target edges) lt hs next in
    (last, omega arith)

-- Up to three draws for each node, each of a node.
abbrev pub IsDraw : ℕ → List ℕ → Type 0
IsDraw n targets = (length targets ≤ 3) × All (λ target. target < n) targets

connect_nodes-IsGraph :
    (n i : ℕ) (draws : List (List ℕ)) (edges : List Edge)
    → i + length draws ≤ n
    → All (IsDraw n) draws
    → IsGraph n edges
    → IsGraph n (connect_nodes i draws edges)
      × (length (connect_nodes i draws edges) ≤ length edges + 3 * length draws)
unfolding connect_nodes
connect_nodes-IsGraph n i [] edges lt hs graph = (graph, omega arith)
connect_nodes-IsGraph n i (targets ∷ draws) edges lt ((few, h), hs) graph =
    let (next, size) = connect_node-IsGraph n i targets edges (omega arith) h graph in
    let (last, sizes) =
      connect_nodes-IsGraph n (i + 1) draws (connect_node i targets edges) (omega arith) hs next in
    (last, omega arith)

-- If for each node at most three targets are drawn, each the index of a node, then each edge joins
-- two different nodes, no two edges join the same pair, in either direction, and there are at most
-- three edges for each node.
pub init_edges-IsGraph :
    (draws : List (List ℕ))
    → All (IsDraw (length draws)) draws
    → IsGraph (length draws) (init_edges draws) × (length (init_edges draws) ≤ 3 * length draws)
unfolding init_edges
init_edges-IsGraph draws h =
    let (graph, size) = connect_nodes-IsGraph (length draws) 0 draws [] (omega arith) h (tt, tt) in
    (graph, omega arith)
