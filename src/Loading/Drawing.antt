-- ===== src/Loading/Drawing.antt =====
-- web/src/components/LoadingGraph.tsx: what a frame draws.
use feedo.Base.{ℕ, List, [], ◌∷◌, none, some, get_elem?}
use feedo.Canvas.{
  Command, colour, grey, fill_style, stroke_style, line_width, font, text_align, clear_rect,
  begin_path, move_to, line_to, fill, stroke, fill_text, Drawing, then_draw, draw_each, draw_square,
  between, dot,
}
use feedo.Graph.{Ops}
use feedo.Loading.{LoadingNode, Angles, Draw, render}

module _ {F : Type 0} (ops : Ops F) (angles : Angles F) where
  abbrev age : ℕ → LoadingNode F → F
  age time node = ops.sub (angles.of_ms time) (angles.of_ms node.spawned_at)

  -- How far the signal on an edge of a node is.
  abbrev progress : ℕ → LoadingNode F → F
  progress time node = ops.div (ops.rem (age time node) (ops.lit "1000")) (ops.lit "1000")

  -- The line to a target and the dot that moves on it.
  unfoldable pub draw_line : ℕ → LoadingNode F → LoadingNode F → List (Command F)
  draw_line time node target =
      stroke_style (colour "#555")
      ∷ begin_path
      ∷ move_to node.x node.y
      ∷ line_to target.x target.y
      ∷ stroke
      ∷ fill_style (colour "#fff")
      ∷ begin_path
      ∷ dot ops angles.pi (between ops node.x target.x (progress time node))
          (between ops node.y target.y (progress time node))
      ∷ fill
      ∷ []

  unfoldable pub draw_target : ℕ → List (LoadingNode F) → LoadingNode F → ℕ → Drawing F
  unfolding draw_line
  draw_target time nodes node target_id = elim (get_elem? nodes target_id) [
    | none ↦ none
    | some target ↦ some (draw_line time node target)
  ]

  unfoldable pub draw_edges : ℕ → List (LoadingNode F) → LoadingNode F → Drawing F
  unfolding draw_target draw_each
  draw_edges time nodes node = draw_each (draw_target time nodes node) node.connected_to

  unfoldable pub draw_node : ℕ → LoadingNode F → Drawing F
  unfolding draw_square
  draw_node time node =
      let opacity = angles.min (ops.div (age time node) (ops.lit "500")) (ops.lit "1") in
      some (fill_style (grey opacity) ∷ draw_square ops node.x node.y)

  unfoldable pub draw_label : F → F → List (Command F)
  draw_label width height =
      fill_style (colour "#888")
      ∷ font "14px sans-serif"
      ∷ text_align "center"
      ∷ fill_text "Searching Feedo Network..." (ops.div width (ops.lit "2"))
          (ops.sub height (ops.lit "20"))
      ∷ []

  unfoldable pub cleared : F → F → List (Command F)
  cleared width height =
      clear_rect (ops.lit "0") (ops.lit "0") width height ∷ line_width (ops.lit "1") ∷ []

  -- The frame of `render`: the edges and the nodes that it comes to, and the text.
  unfoldable pub draw_frame : F → F → ℕ → ℕ → Draw F → List (LoadingNode F) → Drawing F
  unfolding render cleared draw_edges draw_node draw_label draw_each then_draw
  draw_frame width height start_time time draw nodes =
      elim (render ops angles start_time time draw nodes) [
        | none ↦ none
        | some shown ↦ then_draw (some (cleared width height)) (
            then_draw (draw_each (draw_edges time shown) shown)
              (then_draw (draw_each (draw_node time) shown) (some (draw_label width height))))
      ]
