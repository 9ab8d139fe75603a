-- ===== src/Loading/Tree.antt =====
-- The nodes are a tree: each but the first hangs on an earlier one, so every edge can be drawn.
use feedo.Base.{
  ◌≡◌, refl, ap, sym, subst, ◌∙◌, ℕ, zero, suc, ◌+◌, ◌<◌, ◌≤◌, ltb, ltb→lt, List, [], ◌∷◌, ◌++◌,
  some, inl, inr, length, length-append, get_elem?, get_elem?_of_lt, some-injective, arith,
  Bool-cases,
}
use feedo.Graph.{Ops}
use feedo.Loading.{
  LoadingNode, Angles, Draw, expected_nodes, initial_nodes, start_nodes, resize, child, push_child,
  render, Frames, first, next,
}

module _ {F : Type 0} where
  -- The node at an index has it as its id, and one edge to an earlier node, if it is not the first.
  abbrev pub IsNode : ℕ → LoadingNode F → Type 0
  IsNode zero n = (n.id ≡ 0) × (n.connected_to ≡ [])
  IsNode (suc i) n = (n.id ≡ suc i) × (p : ℕ) × (n.connected_to ≡ p ∷ []) × (p < suc i)

  abbrev pub IsTree : ℕ → List (LoadingNode F) → Type 0
  IsTree i [] = Unit
  IsTree i (n ∷ nodes) = IsNode i n × IsTree (suc i) nodes

  id_of_IsNode : (i : ℕ) (n : LoadingNode F) → IsNode i n → n.id ≡ i
  id_of_IsNode zero n (same, root) = same
  id_of_IsNode (suc i) n (same, p, edge, lt) = same

  get_elem?-IsTree :
      (i k : ℕ) (nodes : List (LoadingNode F)) (n : LoadingNode F)
      → IsTree i nodes
      → get_elem? nodes k ≡ some n
      → (n.id ≡ i + k) × (k < length nodes)
  get_elem?-IsTree i k [] n tree at = cc
  get_elem?-IsTree i zero (m ∷ nodes) n (here, tree) at =
      let same : m ≡ n = cc in
      let named = ap (λ n. n.id) (sym same) ∙ id_of_IsNode i m here in (omega arith, omega arith)
  get_elem?-IsTree i (suc k) (m ∷ nodes) n (here, tree) at =
      let (named, lt) = get_elem?-IsTree (suc i) k nodes n tree at in (omega arith, omega arith)

  IsTree-snoc :
      (i : ℕ) (nodes : List (LoadingNode F)) (n : LoadingNode F)
      → IsTree i nodes
      → IsNode (i + length nodes) n
      → IsTree i (nodes ++ n ∷ [])
  IsTree-snoc i [] n tree here = (subst (λ k. IsNode k n) (omega arith) here, tt)
  IsTree-snoc i (m ∷ nodes) n (there, tree) here =
      (there, IsTree-snoc (suc i) nodes n tree (subst (λ k. IsNode k n) (omega arith) here))

module _ {F : Type 0} (ops : Ops F) (angles : Angles F) where
  child-IsNode :
      (parent : LoadingNode F) (n time : ℕ) (draw : Draw F)
      → parent.id < n
      → IsNode n (child ops angles parent n time draw)
  child-IsNode parent zero time draw lt = absurd (omega arith)
  child-IsNode parent (suc n) time draw lt = (refl, parent.id, refl, lt)

  push_child-IsTree :
      (time : ℕ) (draw : Draw F) (nodes : List (LoadingNode F))
      → IsTree 0 nodes
      → draw.parent < length nodes
      → (later : List (LoadingNode F)) × (push_child ops angles time draw nodes ≡ some later)
        × IsTree 0 later
        × (length later ≡ length nodes + 1)
  unfolding push_child
  push_child-IsTree time draw nodes tree there =
      let (parent, at) = get_elem?_of_lt nodes draw.parent there in
      let (named, lt) = get_elem?-IsTree 0 draw.parent nodes parent tree at in
      let n = child ops angles parent (length nodes) time draw in
      let size = length-append nodes (n ∷ []) in
      let hung = child-IsNode parent (length nodes) time draw (omega arith) in
      rw (push_child, at)
        (
          _,
          refl,
          IsTree-snoc 0 nodes n tree (subst (λ k. IsNode k n) (omega arith) hung),
          omega arith,
        )

  -- A tree of at most 15 nodes that has its root.
  abbrev pub IsDrawn : List (LoadingNode F) → Type 0
  IsDrawn nodes = IsTree 0 nodes × (1 ≤ length nodes) × (length nodes ≤ 15)

  pub render-IsDrawn :
      (start_time time : ℕ) (draw : Draw F) (nodes : List (LoadingNode F))
      → IsDrawn nodes
      → draw.parent < length nodes
      → (later : List (LoadingNode F)) × (render ops angles start_time time draw nodes ≡ some later)
        × IsDrawn later
  unfolding render expected_nodes
  render-IsDrawn start_time time draw nodes (tree, some_node, few) there =
      elim (Bool-cases (ltb (length nodes) (expected_nodes start_time time))) [
        | inr enough ↦ rw (enough) (nodes, refl, (tree, some_node, few))
        | inl missing ↦
            let lt = ltb→lt (length nodes) (expected_nodes start_time time) missing in
            let (later, is, grown, one) = push_child-IsTree time draw nodes tree there in
            rw (missing) (later, is, (grown, omega arith, omega arith))
      ]

  -- After any frames, at whatever times and whatever node each draws as the parent, there are at
  -- least one and at most 15 nodes, each node has its index as its id, the first has no edge, and
  -- each other has one edge, which goes to an earlier node.
  pub Frames-IsDrawn :
      (width height : F) (start_time : ℕ) {nodes : List (LoadingNode F)}
      → Frames ops angles width height start_time nodes
      → IsDrawn nodes
  unfolding start_nodes initial_nodes resize
  Frames-IsDrawn width height start_time first = (((refl, refl), tt), omega arith, omega arith)
  Frames-IsDrawn width height start_time (next {nodes} time draw before there fine) =
      let before_drawn = Frames-IsDrawn width height start_time before in
      let (later, is, drawn) = render-IsDrawn start_time time draw nodes before_drawn there in
      subst IsDrawn (some-injective _ _ (sym is ∙ fine)) drawn
