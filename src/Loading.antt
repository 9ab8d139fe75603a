-- ===== src/Loading.antt =====
-- web/src/components/LoadingGraph.tsx: the tree that grows while a search runs.
pub mod Tree
pub mod Drawing
pub mod Drawn
pub mod Tests
use feedo.Base.{
  ◌≡◌, ◌<◌, ℕ, ◌+◌, ◌-◌, ◌/◌, min, ltb, List, [], ◌∷◌, ◌++◌, Option, none, some, if◌then◌else◌,
  length, get_elem?,
}
use feedo.Graph.{Ops}

-- A time is in whole milliseconds.
pub record LoadingNode (F : Type 0) : Type 0 where
  pub x : F
  pub y : F
  pub id : ℕ
  pub connected_to : List ℕ
  pub spawned_at : ℕ

-- What `Math` gives besides the arithmetic.
pub record Angles (F : Type 0) : Type 0 where
  pub pi : F
  pub cos : F → F
  pub sin : F → F
  pub min : F → F → F
  -- a time as a number
  pub of_ms : ℕ → F

abbrev pub spawn_delay : ℕ
spawn_delay = 400

unfoldable pub expected_nodes : ℕ → ℕ → ℕ
expected_nodes start_time time = min (1 + (time - start_time) / spawn_delay) 15

-- The numbers that a frame draws: the index of the parent, below the number of nodes, and two
-- numbers between 0 and 1.
pub record Draw (F : Type 0) : Type 0 where
  pub parent : ℕ
  pub turn : F
  pub far : F

module _ {F : Type 0} (ops : Ops F) (angles : Angles F) where
  -- The one node of the start, in the middle of the canvas.
  unfoldable pub initial_nodes : F → F → ℕ → List (LoadingNode F)
  initial_nodes x y start_time =
      record { id = 0; x = x; y = y; connected_to = []; spawned_at = start_time } ∷ []

  -- The canvas is given the size 400 by 400.
  unfoldable pub resize : List (LoadingNode F) → List (LoadingNode F)
  resize [] = []
  resize (node ∷ nodes) =
      let middle = ops.div (ops.lit "400") (ops.lit "2") in
      record node { x = middle; y = middle } ∷ nodes

  -- The nodes before the first frame, on a canvas of a width and a height.
  unfoldable pub start_nodes : F → F → ℕ → List (LoadingNode F)
  unfolding initial_nodes resize
  start_nodes width height start_time =
      let two = ops.lit "2" in
      resize (initial_nodes (ops.div width two) (ops.div height two) start_time)

  abbrev pub offset : (F → F) → Draw F → F
  offset wave draw =
      let angle = ops.mul (ops.mul draw.turn angles.pi) (ops.lit "2") in
      let distance = ops.add (ops.lit "40") (ops.mul draw.far (ops.lit "60")) in
      ops.mul (wave angle) distance

  abbrev pub child : LoadingNode F → ℕ → ℕ → Draw F → LoadingNode F
  child parent_node id time draw = record {
    id = id;
    x = ops.add parent_node.x (offset angles.cos draw);
    y = ops.add parent_node.y (offset angles.sin draw);
    connected_to = parent_node.id ∷ [];
    spawned_at = time;
  }

  -- `nodes.push` of a child of the drawn node; `none` where that is `undefined`, which throws.
  unfoldable pub push_child : ℕ → Draw F → List (LoadingNode F) → Option (List (LoadingNode F))
  push_child time draw nodes = elim (get_elem? nodes draw.parent) [
    | none ↦ none
    | some parent_node ↦ some (nodes ++ child parent_node (length nodes) time draw ∷ [])
  ]

  -- What a frame does to the nodes; `none` where it throws.
  unfoldable pub render : ℕ → ℕ → Draw F → List (LoadingNode F) → Option (List (LoadingNode F))
  unfolding expected_nodes push_child
  render start_time time draw nodes =
      let more = push_child time draw nodes in
      if ltb (length nodes) (expected_nodes start_time time) then more else some nodes

  -- What the frames have come to, none of which throws; each draws the index of a node.
  pub data Frames (width height : F) (start_time : ℕ) : List (LoadingNode F) → Type 0 where
    first : Frames width height start_time (start_nodes width height start_time)
    next :
        {nodes later : List (LoadingNode F)} (time : ℕ) (draw : Draw F)
        → Frames width height start_time nodes
        → draw.parent < length nodes
        → render start_time time draw nodes ≡ some later
        → Frames width height start_time later
