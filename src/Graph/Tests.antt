-- ===== src/Graph/Tests.antt =====
-- A graph of three nodes over whole numbers, with signals at full speed.
use feedo.Base.{
  ◌≡◌, map, some, refl, ℕ, ◌+◌, ◌-◌, ◌*◌, ◌/◌, ◌%◌, ◌≤◌, ltb, List, [], ◌∷◌, length, arith,
}
use feedo.Graph.{
  Ops, Node, Signal, init_edges, init_nodes, move_node, spawn_all, render, first, next, update_down,
}
use feedo.Canvas.Tally.{Draws}
use feedo.Graph.Drawing.{draw_frame}
use feedo.Graph.Drawn.{Frames-Draws}
use feedo.Graph.Edges.{IsGraph, init_edges-IsGraph}
use feedo.Graph.Signals.{advance_all, update_down-advance_all}
use feedo.Graph.Emitters.{
  IsTraffic, IsIndexed, init_nodes-IsIndexed, render-advance_all, Frames-IsTraffic,
}

-- Every literal is 1.
abbrev ops : Ops ℕ
ops = record {
  add = λ a b. a + b;
  sub = λ a b. a - b;
  mul = λ a b. a * b;
  div = λ a b. a / b;
  rem = λ a b. a % b;
  lt = ltb;
  lit = λ text. 1;
}

abbrev draws : List (List ℕ)
draws = (1 ∷ 0 ∷ []) ∷ (0 ∷ 2 ∷ 2 ∷ []) ∷ (2 ∷ 1 ∷ []) ∷ []

edges_test : init_edges draws ≡ record { i = 0; j = 1 } ∷ record { i = 1; j = 2 } ∷ []
unfolding init_edges
edges_test = refl

init_edges-IsGraph_example : IsGraph 3 (init_edges draws) × (length (init_edges draws) ≤ 9)
init_edges-IsGraph_example = init_edges-IsGraph draws (
  (omega arith, (omega arith, (omega arith, tt))),
  (
    (omega arith, (omega arith, (omega arith, (omega arith, tt)))),
    ((omega arith, (omega arith, (omega arith, tt))), tt),
  ),
)

abbrev done : Signal ℕ
done = record { from = 0; to = 1; progress = 5; speed = 2 }

abbrev running : Signal ℕ
running = record { from = 1; to = 2; progress = 0; speed = 0 }

update_down-advance_all_example :
    update_down ops 3 (done ∷ running ∷ done ∷ []) ≡ some (running ∷ [])
unfolding advance_all
update_down-advance_all_example = update_down-advance_all ops (done ∷ running ∷ done ∷ [])

abbrev nodes : List (Node ℕ)
nodes = init_nodes ops 100 100 0 ((1, 2, 3, 4) ∷ (5, 6, 7, 8) ∷ (9, 10, 11, 12) ∷ [])

abbrev shown : List (Node ℕ) × List (Signal ℕ)
shown = (
  map (move_node ops 100 100) nodes,
  advance_all ops (spawn_all ops (init_edges draws) (λ k. (0, 0)) 0 []),
)

Frames-IsTraffic_example :
    IsTraffic (init_edges draws) shown.1 × IsIndexed 0 shown.0 × (length shown.0 ≡ length nodes)
Frames-IsTraffic_example =
    Frames-IsTraffic ops nodes (init_edges draws)
      (init_nodes-IsIndexed ops 100 100 0 ((1, 2, 3, 4) ∷ (5, 6, 7, 8) ∷ (9, 10, 11, 12) ∷ []))
      (next 100 100 (λ k. (0, 0)) first
        (render-advance_all ops 100 100 (init_edges draws) (λ k. (0, 0)) (nodes, [])))

Frames-Draws_example :
    (later : List (Node ℕ) × List (Signal ℕ)) × (render ops 100 100
        (init_edges draws)
        (λ k. (0, 0))
        shown
      ≡ some later)
    × Draws
        (length (init_edges draws))
        (length later.1)
        3
        (draw_frame ops 3 100 100 (init_edges draws) (λ k. (0, 0)) shown)
unfolding init_nodes
Frames-Draws_example =
    Frames-Draws ops 3 nodes (init_edges draws) 100 100 (λ k. (0, 0))
      (init_nodes-IsIndexed ops 100 100 0 ((1, 2, 3, 4) ∷ (5, 6, 7, 8) ∷ (9, 10, 11, 12) ∷ []))
      init_edges-IsGraph_example.0
      (next 100 100 (λ k. (0, 0)) first
        (render-advance_all ops 100 100 (init_edges draws) (λ k. (0, 0)) (nodes, [])))
