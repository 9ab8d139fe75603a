-- ===== src/Graph/Drawing.antt =====
-- web/src/components/GraphBackground.tsx: what a frame draws.
use feedo.Base.{
  ℕ, zero, suc, List, [], ◌∷◌, map, Option, none, some, if◌then◌else◌, length, get_elem?,
}
use feedo.Canvas.{
  Command, colour, fill_style, stroke_style, line_width, shadow_blur, shadow_color, fill_rect,
  begin_path, move_to, line_to, fill, stroke, Drawing, then_draw, draw_each, draw_square, between,
  dot,
}
use feedo.Graph.{Ops, Node, Signal, Edge, move_node, spawn_all, arrived, progressed, update}

-- `none` where a node is `undefined`.
unfoldable pub with_ends :
    {F : Type 0}
    → (Node F → Node F → List (Command F))
    → Option (Node F)
    → Option (Node F)
    → Drawing F
with_ends draw (some a) (some b) = some (draw a b)
with_ends draw (some a) none = none
with_ends draw none b = none

module _ {F : Type 0} where
  unfoldable pub draw_line : Node F → Node F → List (Command F)
  draw_line n1 n2 = begin_path ∷ move_to n1.x n1.y ∷ line_to n2.x n2.y ∷ stroke ∷ []

  unfoldable pub draw_edge : List (Node F) → Edge → Drawing F
  unfolding with_ends draw_line
  draw_edge nodes e = with_ends draw_line (get_elem? nodes e.i) (get_elem? nodes e.j)

module _ {F : Type 0} (ops : Ops F) where
  unfoldable pub draw_node : Node F → Drawing F
  unfolding draw_square
  draw_node node = some (fill_style (colour "#333333") ∷ draw_square ops node.x node.y)

  unfoldable pub background : F → F → List (Command F)
  background width height =
      fill_style (colour "#050505")
      ∷ fill_rect (ops.lit "0") (ops.lit "0") width height
      ∷ line_width (ops.lit "1")
      ∷ stroke_style (colour "rgba(100, 100, 100, 0.15)")
      ∷ []

module _ {F : Type 0} (ops : Ops F) (pi : F) where
  -- A dot that glows.
  unfoldable pub draw_dot : F → Node F → Node F → List (Command F)
  draw_dot progress from to =
      fill_style (colour "#ffffff")
      ∷ begin_path
      ∷ dot ops pi (between ops from.x to.x progress) (between ops from.y to.y progress)
      ∷ fill
      ∷ shadow_blur (ops.lit "10")
      ∷ shadow_color (colour "#ffffff")
      ∷ fill
      ∷ shadow_blur (ops.lit "0")
      ∷ []

  unfoldable pub draw_signal : List (Node F) → Signal F → Drawing F
  unfolding with_ends draw_dot
  draw_signal nodes s =
      with_ends (draw_dot s.progress) (get_elem? nodes s.from) (get_elem? nodes s.to)

  -- The body of the loop over the signals: one that arrives is not drawn, and one that is
  -- `undefined` throws.
  unfoldable pub draw_update : List (Node F) → ℕ → List (Signal F) → Drawing F
  unfolding draw_signal
  draw_update nodes i signals = elim (get_elem? signals i) [
    | none ↦ none
    | some s ↦ if arrived ops s then some [] else draw_signal nodes (progressed ops s)
  ]

  unfoldable pub draw_down : List (Node F) → ℕ → List (Signal F) → Drawing F
  unfolding draw_update update then_draw
  draw_down nodes zero signals = some []
  draw_down nodes (suc n) signals =
      then_draw (draw_update nodes n signals)
        (elim (update ops n signals) [ none ↦ none | some rest ↦ draw_down nodes n rest ])

  -- The frame of `render`: the nodes are moved, then the edges, the signals and the nodes are
  -- drawn.
  unfoldable pub draw_frame :
      F → F → List Edge → (ℕ → F × F) → List (Node F) × List (Signal F) → Drawing F
  unfolding move_node draw_edge draw_down draw_node background draw_each then_draw spawn_all
  draw_frame width height edges draw (nodes, signals) =
      let moved = map (move_node ops width height) nodes in
      let spawned = spawn_all ops edges draw 0 signals in
      then_draw (some (background ops width height)) (
        then_draw (draw_each (draw_edge moved) edges)
          (then_draw (draw_down moved (length spawned) spawned) (draw_each (draw_node ops) moved)))
