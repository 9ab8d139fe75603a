-- ===== src/Loading/Tests.antt =====
-- Two frames over whole numbers.
use feedo.Base.{
  ◌≡◌, refl, ℕ, ◌+◌, ◌-◌, ◌*◌, ◌/◌, ◌%◌, ltb, List, [], ◌∷◌, ◌++◌, some, none, length, arith,
}
use feedo.Graph.{Ops}
use feedo.Loading.{
  Angles, Draw, LoadingNode, expected_nodes, initial_nodes, start_nodes, resize, push_child, render,
  first, next, child, Frames,
}
use feedo.Canvas.Tally.{Draws}
use feedo.Loading.Drawing.{draw_frame}
use feedo.Loading.Drawn.{draw_frame-Draws}
use feedo.Loading.Tree.{IsDrawn, Frames-IsDrawn}

abbrev ops : Ops ℕ
ops = record {
  add = λ a b. a + b;
  sub = λ a b. a - b;
  mul = λ a b. a * b;
  div = λ a b. a / b;
  rem = λ a b. a % b;
  lt = ltb;
  lit = λ text. 1;
}

abbrev angles : Angles ℕ
angles = record { pi = 3; cos = λ a. a; sin = λ a. 0; min = λ a b. a; of_ms = λ t. t }

abbrev draw : Draw ℕ
draw = record { parent = 0; turn = 1; far = 1 }

expected_test : expected_nodes 1000 1850 ≡ 3
unfolding expected_nodes
expected_test = refl

abbrev start_node : LoadingNode ℕ
start_node = record { id = 0; x = 1; y = 1; connected_to = []; spawned_at = 1000 }

abbrev two_nodes : List (LoadingNode ℕ)
two_nodes = start_node ∷ child ops angles start_node 1 1800 draw ∷ []

second_test :
    render ops angles 1000 1800 draw (start_nodes ops angles 300 150 1000) ≡ some two_nodes
unfolding render push_child expected_nodes start_nodes initial_nodes resize
second_test = refl

edges_test :
    render ops angles 1000 1850 draw two_nodes
    ≡ some (two_nodes ++ child ops angles start_node 2 1850 draw ∷ [])
unfolding render push_child expected_nodes
edges_test = refl

-- A parent behind the last node throws.
beyond_test :
    render ops angles 1000 1850 (record { parent = 2; turn = 1; far = 1 }) two_nodes ≡ none
unfolding render push_child expected_nodes
beyond_test = refl

one_frame : Frames ops angles 300 150 1000 two_nodes
unfolding start_nodes initial_nodes resize
one_frame = next 1800 draw first (omega arith) second_test

Frames-IsDrawn_example : IsDrawn ops angles two_nodes
Frames-IsDrawn_example = Frames-IsDrawn ops angles 300 150 1000 one_frame

draw_frame-Draws_example :
    (shown : List (LoadingNode ℕ)) × (render ops angles 1000 1850 draw two_nodes ≡ some shown)
    × Draws
        (length shown - 1)
        (length shown - 1)
        (length shown)
        (draw_frame ops angles 400 400 1000 1850 draw two_nodes)
draw_frame-Draws_example =
    draw_frame-Draws ops angles 300 150 400 400 1000 1850 draw one_frame (omega arith)
