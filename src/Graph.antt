-- ===== src/Graph.antt =====
-- web/src/components/GraphBackground.tsx: the moving graph behind the pages.
pub mod Edges
pub mod Signals
pub mod Emitters
pub mod Drawing
pub mod Drawn
pub mod Tests
use feedo.Base.{
  ◌≡◌, ℕ, zero, suc, ◌+◌, ◌==◌, String, List, [], ◌∷◌, ◌++◌, map, Option, none, some, Bool, true,
  false, not, ◌&&◌, ◌||◌, if◌then◌else◌, length, get_elem?, set,
}

-- Floating point numbers as the program uses them; `lit` is the value of a literal.
pub record Ops (F : Type 0) : Type 0 where
  pub add : F → F → F
  pub sub : F → F → F
  pub mul : F → F → F
  pub lt : F → F → Bool
  pub div : F → F → F
  pub rem : F → F → F
  pub lit : String → F

pub record Node (F : Type 0) : Type 0 where
  pub x : F
  pub y : F
  pub vx : F
  pub vy : F
  pub id : ℕ

-- A signal refers to the nodes of an edge; as nodes are never removed, by their indices, which are
-- their ids.
pub record Signal (F : Type 0) : Type 0 where
  pub from : ℕ
  pub to : ℕ
  pub progress : F
  pub speed : F

pub record Edge : Type 0 where
  pub i : ℕ
  pub j : ℕ

-- Whether an edge joins two nodes, in either direction.
abbrev pub joins : ℕ → ℕ → Edge → Bool
joins i target e = (e.i == i && e.j == target) || (e.i == target && e.j == i)

unfoldable pub exists_edge : ℕ → ℕ → List Edge → Bool
exists_edge i target [] = false
exists_edge i target (e ∷ edges) = joins i target e || exists_edge i target edges

-- One round of the loop over the connections of node `i`, with the target that is drawn.
unfoldable pub connect : ℕ → ℕ → List Edge → List Edge
unfolding exists_edge
connect i target edges =
    if not (target == i) && not (exists_edge i target edges)
    then edges ++ record { i = i; j = target } ∷ []
    else edges

unfoldable pub connect_node : ℕ → List ℕ → List Edge → List Edge
unfolding connect
connect_node i [] edges = edges
connect_node i (target ∷ targets) edges = connect_node i targets (connect i target edges)

-- The loop over the nodes from `i` on. `draws` has the targets for each node.
unfoldable pub connect_nodes : ℕ → List (List ℕ) → List Edge → List Edge
unfolding connect_node
connect_nodes i [] edges = edges
connect_nodes i (targets ∷ draws) edges = connect_nodes (i + 1) draws (connect_node i targets edges)

unfoldable pub init_edges : List (List ℕ) → List Edge
unfolding connect_nodes
init_edges draws = connect_nodes 0 draws []

module _ {F : Type 0} where
  unfoldable pub is_emitting : ℕ → List (Signal F) → Bool
  is_emitting n [] = false
  is_emitting n (s ∷ signals) = s.from == n || is_emitting n signals

  -- `signals.splice(i, 1)`
  unfoldable pub remove : List (Signal F) → ℕ → List (Signal F)
  remove [] i = []
  remove (s ∷ signals) zero = signals
  remove (s ∷ signals) (suc i) = s ∷ remove signals i

module _ {F : Type 0} (ops : Ops F) where
  abbrev pub bounce : F → F → F → F
  bounce bound at v =
      if ops.lt at (ops.lit "0") || ops.lt bound at then ops.mul v (ops.lit "-1") else v

  unfoldable pub move_node : F → F → Node F → Node F
  move_node width height node =
      let x = ops.add node.x node.vx in
      let y = ops.add node.y node.vy in
      record {
        x = x;
        y = y;
        vx = bounce width x node.vx;
        vy = bounce height y node.vy;
        id = node.id;
      }

  -- The four numbers that are drawn for a node.
  unfoldable pub init_node : F → F → ℕ → F × F × F × F → Node F
  init_node width height i (r₁, r₂, r₃, r₄) = record {
    id = i;
    x = ops.mul r₁ width;
    y = ops.mul r₂ height;
    vx = ops.mul (ops.sub r₃ (ops.lit "0.5")) (ops.lit "0.5");
    vy = ops.mul (ops.sub r₄ (ops.lit "0.5")) (ops.lit "0.5");
  }

  unfoldable pub init_nodes : F → F → ℕ → List (F × F × F × F) → List (Node F)
  unfolding init_node
  init_nodes width height i [] = []
  init_nodes width height i (draw ∷ draws) =
      init_node width height i draw ∷ init_nodes width height (i + 1) draws

  -- The speed of a signal, from the number that is drawn.
  abbrev pub new_signal : Edge → F → Signal F
  new_signal e r = record {
    from = e.i;
    to = e.j;
    progress = ops.lit "0";
    speed = ops.add (ops.lit "0.001") (ops.mul r (ops.lit "0.002"));
  }

  -- The body of the loop over the edges, with the two numbers that are drawn.
  unfoldable pub spawn : Edge → F × F → List (Signal F) → List (Signal F)
  unfolding is_emitting
  spawn e (chance, r) signals =
      if ops.lt chance (ops.lit "0.002") && not (is_emitting e.i signals)
      then signals ++ new_signal e r ∷ []
      else signals

  unfoldable pub spawn_all : List Edge → (ℕ → F × F) → ℕ → List (Signal F) → List (Signal F)
  unfolding spawn
  spawn_all [] draw k signals = signals
  spawn_all (e ∷ edges) draw k signals = spawn_all edges draw (k + 1) (spawn e (draw k) signals)

  abbrev pub progressed : Signal F → Signal F
  progressed s = record s { progress = ops.add s.progress s.speed }

  abbrev pub arrived : Signal F → Bool
  arrived s = not (ops.lt (progressed s).progress (ops.lit "1"))

  -- The body of the loop over the signals; `none` where `signals[i]` is `undefined`, which throws.
  unfoldable pub update : ℕ → List (Signal F) → Option (List (Signal F))
  unfolding remove
  update i signals = elim (get_elem? signals i) [
    | none ↦ none
    | some s ↦ some (if arrived s then remove signals i else set signals i (progressed s))
  ]

  -- The loop, which goes down from the last signal: from `n` it visits `n - 1`, ..., 0.
  unfoldable pub update_down : ℕ → List (Signal F) → Option (List (Signal F))
  unfolding update
  update_down zero signals = some signals
  update_down (suc n) signals = elim (update n signals) [
    | none ↦ none
    | some rest ↦ update_down n rest
  ]

  -- What a frame does to the nodes and the signals; `none` where it throws.
  unfoldable pub render :
      F
      → F
      → List Edge
      → (ℕ → F × F)
      → List (Node F) × List (Signal F)
      → Option (List (Node F) × List (Signal F))
  unfolding move_node spawn_all update_down
  render width height edges draw (nodes, signals) =
      let spawned = spawn_all edges draw 0 signals in
      elim (update_down (length spawned) spawned) [
        | none ↦ none
        | some left ↦ some (map (move_node width height) nodes, left)
      ]

  -- What the frames after some nodes and edges have come to, none of which throws, whatever is
  -- drawn and however the window is resized.
  pub data Frames (nodes : List (Node F)) (edges : List Edge)
      : List (Node F) × List (Signal F) → Type 0 where
    first : Frames nodes edges (nodes, [])
    next :
        {shown later : List (Node F) × List (Signal F)} (width height : F) (draw : ℕ → F × F)
        → Frames nodes edges shown
        → render width height edges draw shown ≡ some later
        → Frames nodes edges later
