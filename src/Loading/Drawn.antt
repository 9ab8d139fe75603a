-- ===== src/Loading/Drawn.antt =====
-- What a frame of the loading graph draws: the lines, the dots and the squares.
use feedo.Base.{
  ◌≡◌, refl, ℕ, zero, suc, ◌+◌, ◌-◌, ◌<◌, ◌≤◌, List, [], ◌∷◌, some, length, get_elem?_of_lt, arith,
}
use feedo.Canvas.{then_draw, draw_each, draw_square, draw_rounded_rect}
use feedo.Canvas.Tally.{
  count, Draws, Draws-then_draw, Draws-exact, Draws-draw_each, total-one, total-zero,
}
use feedo.Graph.{Ops}
use feedo.Loading.{LoadingNode, Angles, Draw, render, Frames}
use feedo.Loading.Tree.{IsNode, IsTree, IsDrawn, render-IsDrawn, Frames-IsDrawn}
use feedo.Loading.Drawing.{
  draw_line, draw_target, draw_edges, draw_node, draw_label, cleared, draw_frame,
}

module _ {F : Type 0} (ops : Ops F) (angles : Angles F) where
  draw_target-Draws :
      (time : ℕ) (nodes : List (LoadingNode F)) (node : LoadingNode F) (target_id : ℕ)
      → target_id < length nodes
      → Draws 1 1 0 (draw_target ops angles time nodes node target_id)
  unfolding draw_target draw_line count
  draw_target-Draws time nodes node target_id lt =
      let (target, at) = get_elem?_of_lt nodes target_id lt in
      rw (draw_target, at) (_, refl, refl, refl, refl)

  -- The edges of each node but the first.
  abbrev hung : ℕ → ℕ
  hung zero = 0
  hung (suc i) = 1

  draw_edges-Draws :
      (time : ℕ) (nodes : List (LoadingNode F)) (i : ℕ) (node : LoadingNode F)
      → IsNode i node
      → i < length nodes
      → Draws (hung i) (hung i) 0 (draw_edges ops angles time nodes node)
  unfolding draw_edges draw_each then_draw count
  draw_edges-Draws time nodes zero node (named, root) lt = rw root ([], refl, refl, refl, refl)
  draw_edges-Draws time nodes (suc i) node (named, p, edge, before) lt = rw edge (
      Draws-then_draw (draw_target ops angles time nodes node p) (some [])
        (draw_target-Draws time nodes node p (omega arith)) ([], refl, refl, refl, refl))

  later-Draws :
      (time : ℕ) (nodes rest : List (LoadingNode F)) (i : ℕ)
      → IsTree (suc i) rest
      → suc i + length rest ≤ length nodes
      → Draws (length rest) (length rest) 0 (draw_each (draw_edges ops angles time nodes) rest)
  unfolding draw_each count
  later-Draws time nodes [] i tree le = ([], refl, refl, refl, refl)
  later-Draws time nodes (node ∷ rest) i (here, tree) le =
      let draw = draw_edges ops angles time nodes in
      Draws-exact (then_draw (draw node) (draw_each draw rest)) (omega arith) (omega arith) refl (
        Draws-then_draw (draw node) (draw_each draw rest)
          (draw_edges-Draws time nodes (suc i) node here (omega arith))
          (later-Draws time nodes rest (suc i) tree (omega arith)))

  tree-Draws :
      (time : ℕ) (nodes : List (LoadingNode F))
      → IsDrawn ops angles nodes
      → Draws
          (length nodes - 1)
          (length nodes - 1)
          0
          (draw_each (draw_edges ops angles time nodes) nodes)
  unfolding draw_each
  tree-Draws time [] (tree, some_node, few) = absurd (omega arith)
  tree-Draws time (node ∷ rest) ((here, tree), some_node, few) =
      let draw = draw_edges ops angles time (node ∷ rest) in
      Draws-exact (then_draw (draw node) (draw_each draw rest)) (omega arith) (omega arith) refl (
        Draws-then_draw (draw node) (draw_each draw rest)
          (draw_edges-Draws time (node ∷ rest) 0 node here (omega arith))
          (later-Draws time (node ∷ rest) rest 0 tree (omega arith)))

  draw_node-Draws : (time : ℕ) (node : LoadingNode F) → Draws 0 0 1 (draw_node ops angles time node)
  unfolding draw_node draw_square draw_rounded_rect count
  draw_node-Draws time node = (_, refl, refl, refl, refl)

  nodes-Draws :
      (time : ℕ) (nodes : List (LoadingNode F))
      → Draws 0 0 (length nodes) (draw_each (draw_node ops angles time) nodes)
  nodes-Draws time nodes =
      let draw = draw_node ops angles time in
      Draws-exact (draw_each draw nodes) (total-zero nodes) (total-zero nodes) (total-one nodes)
        (Draws-draw_each draw (λ n. 0) (λ n. 0) (λ n. 1) nodes (λ k n at. draw_node-Draws time n))

  cleared-Draws : (width height : F) → Draws 0 0 0 (some (cleared ops angles width height))
  unfolding cleared count
  cleared-Draws width height = (_, refl, refl, refl, refl)

  label-Draws : (width height : F) → Draws 0 0 0 (some (draw_label ops angles width height))
  unfolding draw_label count
  label-Draws width height = (_, refl, refl, refl, refl)

  -- No frame of the loading graph throws: after any frames the next one, if the parent that it
  -- draws is the index of a node, reads no missing node, and draws one square for each node that it
  -- comes to, and one line and one dot for each of them but the first.
  pub draw_frame-Draws :
      (first_width first_height width height : F) (start_time time : ℕ) (draw : Draw F)
      {nodes : List (LoadingNode F)}
      → Frames ops angles first_width first_height start_time nodes
      → draw.parent < length nodes
      → (shown : List (LoadingNode F)) × (render ops angles start_time time draw nodes ≡ some shown)
        × Draws
            (length shown - 1)
            (length shown - 1)
            (length shown)
            (draw_frame ops angles width height start_time time draw nodes)
  unfolding draw_frame count
  draw_frame-Draws first_width first_height width height start_time time draw {nodes} frames there =
      let before = Frames-IsDrawn ops angles first_width first_height start_time frames in
      let (shown, is, tree) = render-IsDrawn ops angles start_time time draw nodes before there in
      let edges = draw_each (draw_edges ops angles time shown) shown in
      let squares = draw_each (draw_node ops angles time) shown in
      let label = some (draw_label ops angles width height) in
      let drawing =
        then_draw (some (cleared ops angles width height))
          (then_draw edges (then_draw squares label)) in
      rw (draw_frame, is)
        (
          shown,
          refl,
          Draws-exact drawing (omega arith) (omega arith) (omega arith) (
              Draws-then_draw (some (cleared ops angles width height))
                (then_draw edges (then_draw squares label)) (_, refl, refl, refl, refl)
                (Draws-then_draw edges (then_draw squares label) (tree-Draws time shown tree) (
                  Draws-then_draw squares label (nodes-Draws time shown)
                    (label-Draws width height)))),
        )
