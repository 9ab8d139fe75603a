-- ===== src/Canvas.antt =====
-- What the graphs of web/src/components ask of the canvas: the calls and the settings, in order.
pub mod Tally
use feedo.Base.{List, [], ◌∷◌, ◌++◌, Option, none, some, String}
use feedo.Graph.{Ops}

pub data Style (F : Type 0) : Type 0 where
  colour : String → Style F
  -- `rgba(150, 150, 150, ${opacity})`
  grey : F → Style F

-- A call of the context, or one of its settings.
pub data Command (F : Type 0) : Type 0 where
  fill_style : Style F → Command F
  stroke_style : Style F → Command F
  line_width : F → Command F
  shadow_blur : F → Command F
  shadow_color : Style F → Command F
  font : String → Command F
  text_align : String → Command F
  fill_rect : F → F → F → F → Command F
  clear_rect : F → F → F → F → Command F
  begin_path : Command F
  move_to : F → F → Command F
  line_to : F → F → Command F
  quadratic_curve_to : F → F → F → F → Command F
  arc : F → F → F → F → F → Command F
  close_path : Command F
  fill : Command F
  stroke : Command F
  fill_text : String → F → F → Command F

-- What is drawn, `none` where a field of `undefined` is read.
abbrev pub Drawing : Type 0 → Type 0
Drawing F = Option (List (Command F))

unfoldable pub then_draw : {F : Type 0} → Drawing F → Drawing F → Drawing F
then_draw none later = none
then_draw (some commands) none = none
then_draw (some commands) (some others) = some (commands ++ others)

-- `forEach`
unfoldable pub draw_each : {A F : Type 0} → (A → Drawing F) → List A → Drawing F
unfolding then_draw
draw_each draw [] = some []
draw_each draw (a ∷ rest) = then_draw (draw a) (draw_each draw rest)

module _ {F : Type 0} (ops : Ops F) where
  unfoldable pub draw_rounded_rect : F → F → F → F → F → List (Command F)
  draw_rounded_rect x y width height radius =
      let right = ops.add x width in
      let bottom = ops.add y height in
      begin_path
      ∷ move_to (ops.add x radius) y
      ∷ line_to (ops.sub right radius) y
      ∷ quadratic_curve_to right y right (ops.add y radius)
      ∷ line_to right (ops.sub bottom radius)
      ∷ quadratic_curve_to right bottom (ops.sub right radius) bottom
      ∷ line_to (ops.add x radius) bottom
      ∷ quadratic_curve_to x bottom x (ops.sub bottom radius)
      ∷ line_to x (ops.add y radius)
      ∷ quadratic_curve_to x y (ops.add x radius) y
      ∷ close_path
      ∷ fill
      ∷ []

  -- A square of 12 around a point.
  unfoldable pub draw_square : F → F → List (Command F)
  unfolding draw_rounded_rect
  draw_square x y =
      let half = ops.div (ops.lit "12") (ops.lit "2") in
      draw_rounded_rect (ops.sub x half) (ops.sub y half) (ops.lit "12") (ops.lit "12")
        (ops.lit "3")

  -- `a + (b - a) * progress`
  abbrev pub between : F → F → F → F
  between a b progress = ops.add a (ops.mul (ops.sub b a) progress)

  -- `arc` of a whole circle of radius 2, with `Math.PI`.
  abbrev pub dot : F → F → F → Command F
  dot pi x y = arc x y (ops.lit "2") (ops.lit "0") (ops.mul pi (ops.lit "2"))
