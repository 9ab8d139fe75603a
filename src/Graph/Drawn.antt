-- ===== src/Graph/Drawn.antt =====
-- What a frame draws: the lines, the dots and the squares.
use feedo.Base.{
  ◌≡◌, refl, ap, some-injective, sym, subst, ◌∙◌, ℕ, zero, suc, ◌+◌, ◌<◌, ◌≤◌, List, [], ◌∷◌, map,
  some, inl, inr, All, length, get_elem?, get_elem?_of_lt, get_elem?-All, Bool-cases, arith,
}
use feedo.Canvas.{Command, then_draw, draw_each, draw_square, draw_rounded_rect}
use feedo.Canvas.Tally.{
  count, Draws, Draws-then_draw, Draws-exact, Draws-draw_each, total-one, total-zero,
}
use feedo.Graph.{
  Ops, Node, Signal, Edge, move_node, spawn_all, arrived, progressed, remove, update, update_down,
  render, Frames,
}
use feedo.Graph.Edges.{IsProper, IsGraph}
use feedo.Graph.Signals.{with_first, update-cons, update_down-advance_all}
use feedo.Graph.Emitters.{
  IsIndexed, IsAlong, at_index, spawn_all-IsTraffic, moved_IsIndexed, Frames-IsTraffic,
  render-advance_all,
}
use feedo.Graph.Drawing.{
  with_ends, draw_line, draw_edge, draw_dot, draw_signal, draw_update, draw_down, draw_node,
  background, draw_frame,
}

module _ {F : Type 0} (ops : Ops F) (pi : F) where
  with_ends-Draws :
      {l c p : ℕ} (draw : Node F → Node F → List (Command F)) (nodes : List (Node F)) (i j : ℕ)
      → i < length nodes
      → j < length nodes
      → ((a b : Node F) → Draws l c p (some (draw a b)))
      → Draws l c p (with_ends draw (get_elem? nodes i) (get_elem? nodes j))
  unfolding with_ends
  with_ends-Draws draw nodes i j lt lt' h =
      let (a, is) = get_elem?_of_lt nodes i lt in
      let (b, is') = get_elem?_of_lt nodes j lt' in rw (is, is') (h a b)

  draw_edge-Draws :
      (nodes : List (Node F)) (e : Edge)
      → IsProper (length nodes) e
      → Draws 1 0 0 (draw_edge nodes e)
  unfolding draw_edge draw_line count
  draw_edge-Draws nodes e (lt, lt', apart) =
      with_ends-Draws (draw_line) nodes e.i e.j lt lt' (λ a b. (_, refl, refl, refl, refl))

  -- The nodes of a signal exist.
  abbrev HasEnds : List (Node F) → Signal F → Type 0
  HasEnds nodes s = (s.from < length nodes) × (s.to < length nodes)

  draw_signal-Draws :
      (nodes : List (Node F)) (s : Signal F)
      → HasEnds nodes s
      → Draws 0 1 0 (draw_signal ops pi nodes s)
  unfolding draw_signal draw_dot count
  draw_signal-Draws nodes s (lt, lt') =
      with_ends-Draws (draw_dot ops pi s.progress) nodes s.from s.to lt lt'
        (λ a b. (_, refl, refl, refl, refl))

  -- A signal is drawn if it stays in the list.
  draw_update-Draws :
      (nodes : List (Node F)) (n : ℕ) (signals : List (Signal F))
      → n < length signals
      → All (HasEnds nodes) signals
      → (a : ℕ) × (left : List (Signal F)) × (update ops n signals ≡ some left)
        × Draws 0 a 0 (draw_update ops pi nodes n signals)
        × All (HasEnds nodes) left
        × (a + length signals ≡ length left + 1)
  unfolding draw_update update remove count
  draw_update-Draws nodes n [] lt h = absurd (omega arith)
  draw_update-Draws nodes zero (s ∷ signals) lt (here, h) = elim (Bool-cases (arrived ops s)) [
    | inl gone ↦ rw gone (0, signals, refl, ([], refl, refl, refl, refl), h, omega arith)
    | inr going ↦ rw going (
      1,
      progressed ops s ∷ signals,
      refl,
      draw_signal-Draws nodes (progressed ops s) here,
      (here, h),
      omega arith,
    )
  ]
  draw_update-Draws nodes (suc n) (s ∷ signals) lt (here, h) =
      let (a, left, is, drawn, ends, size) = draw_update-Draws nodes n signals (omega arith) h in
      let shifted = update-cons ops n s signals ∙ ap (with_first ops s) is in
      (a, s ∷ left, shifted, drawn, (here, ends), omega arith)

  draw_down-Draws :
      (nodes : List (Node F)) (n : ℕ) (signals : List (Signal F))
      → n ≤ length signals
      → All (HasEnds nodes) signals
      → (a : ℕ) × (left : List (Signal F)) × (update_down ops n signals ≡ some left)
        × Draws 0 a 0 (draw_down ops pi nodes n signals)
        × (a + length signals ≡ length left + n)
  unfolding draw_down update_down count
  draw_down-Draws nodes zero signals le h =
      (0, signals, refl, ([], refl, refl, refl, refl), omega arith)
  draw_down-Draws nodes (suc n) signals le h =
      let (a, rest, is, drawn, ends, size) = draw_update-Draws nodes n signals (omega arith) h in
      let (b, left, all, others, sizes) = draw_down-Draws nodes n rest (omega arith) ends in
      (
        a + b,
        left,
        rw (update_down, is) all,
        rw (draw_down, is)
            (Draws-then_draw (draw_update ops pi nodes n signals) (draw_down ops pi nodes n rest)
              drawn others),
        omega arith,
      )

  draw_node-Draws : (node : Node F) → Draws 0 0 1 (draw_node ops node)
  unfolding draw_node draw_square draw_rounded_rect count
  draw_node-Draws node = (_, refl, refl, refl, refl)

  background-Draws : (width height : F) → Draws 0 0 0 (some (background ops width height))
  unfolding background count
  background-Draws width height = (_, refl, refl, refl, refl)

  along_ends :
      (nodes : List (Node F)) (edges : List Edge) (signals : List (Signal F))
      → All (IsProper (length nodes)) edges
      → All (IsAlong edges) signals
      → All (HasEnds nodes) signals
  along_ends nodes edges [] proper along = tt
  along_ends nodes edges (s ∷ signals) proper ((k, at), along) =
      let (lt, lt', _) = get_elem?-All (IsProper (length nodes)) edges k proper at in
      ((lt, lt'), along_ends nodes edges signals proper along)

  draw_edges-Draws :
      (nodes : List (Node F)) (edges : List Edge)
      → All (IsProper (length nodes)) edges
      → Draws (length edges) 0 0 (draw_each (draw_edge nodes) edges)
  draw_edges-Draws nodes edges proper =
      Draws-exact (draw_each (draw_edge nodes) edges) (total-one edges) (total-zero edges)
        (total-zero edges)
        (Draws-draw_each (draw_edge nodes) (λ e. 1) (λ e. 0) (λ e. 0) edges
          (λ k e at.
            draw_edge-Draws nodes e (get_elem?-All (IsProper (length nodes)) edges k proper at)))

  draw_nodes-Draws :
      (nodes : List (Node F)) → Draws 0 0 (length nodes) (draw_each (draw_node ops) nodes)
  draw_nodes-Draws nodes =
      Draws-exact (draw_each (draw_node ops) nodes) (total-zero nodes) (total-zero nodes)
        (total-one nodes)
        (Draws-draw_each (draw_node ops) (λ n. 0) (λ n. 0) (λ n. 1) nodes
          (λ k n at. draw_node-Draws n))

  -- No frame of the graph throws: if each node has its index as its id and the edges are those of a
  -- graph over the nodes, then after any frames the next one reads no missing node and no missing
  -- signal, and draws one line for each edge, one dot for each signal that is left after it and one
  -- square for each node.
  pub Frames-Draws :
      (nodes : List (Node F)) (edges : List Edge) {shown : List (Node F) × List (Signal F)}
      (width height : F) (draw : ℕ → F × F)
      → IsIndexed 0 nodes
      → IsGraph (length nodes) edges
      → Frames ops nodes edges shown
      → (later : List (Node F) × List (Signal F)) × (render ops width height edges draw shown
          ≡ some later)
        × Draws
            (length edges)
            (length later.1)
            (length nodes)
            (draw_frame ops pi width height edges draw shown)
  unfolding draw_frame
  Frames-Draws nodes edges {shown} width height draw indexed (proper, simple) frames =
      let (traffic, still, size) = Frames-IsTraffic ops nodes edges indexed frames in
      let moved = map (move_node ops width height) shown.0 in
      let (_, same) = moved_IsIndexed ops width height 0 shown.0 still in
      let spawned = spawn_all ops edges draw 0 shown.1 in
      let (_, along) =
        spawn_all-IsTraffic ops edges edges draw 0 shown.1
          (λ n e at. at_index edges n (0 + n) (omega arith) at) traffic in
      let all_proper : All (IsProper (length moved)) edges =
        subst (λ n. All (IsProper n) edges) (sym (same ∙ size)) proper in
      let (a, left, is, dots, count_dots) =
        draw_down-Draws moved (length spawned) spawned (omega arith)
          (along_ends moved edges spawned all_proper along) in
      let same_left =
        ap length (some-injective _ _ (sym is ∙ update_down-advance_all ops spawned)) in
      let lines = draw_each (draw_edge moved) edges in
      let signals = draw_down ops pi moved (length spawned) spawned in
      let squares = draw_each (draw_node ops) moved in
      (
        _,
        render-advance_all ops width height edges draw shown,
        Draws-exact (draw_frame ops pi width height edges draw shown) (omega arith) (omega arith)
            (omega arith)
            (Draws-then_draw (some (background ops width height)) _ (background-Draws width height)
              (Draws-then_draw lines (then_draw signals squares)
                (draw_edges-Draws moved edges all_proper)
                (Draws-then_draw signals squares dots (draw_nodes-Draws moved)))),
      )
