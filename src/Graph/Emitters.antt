-- ===== src/Graph/Emitters.antt =====
-- The signals that are on their way: at most one from a node, and each along an edge.
use feedo.Base.{
  ◌≡◌, some-injective, refl, ap, ◌∙◌, map, length, suc, sym, subst, ℕ, ◌+◌, ◌==◌, List, [], ◌∷◌,
  ◌++◌, some, false, inl, inr, All, get_elem?, Bool-cases, arith,
}
use feedo.Graph.{
  move_node, init_node, init_nodes, Ops, Node, Signal, Edge, is_emitting, new_signal, spawn,
  spawn_all, arrived, render, Frames, first, next,
}
use feedo.Graph.Edges.{or_false}
use feedo.Graph.Signals.{advance_all, update_down-advance_all}

equal_sym : (m n : ℕ) → (m == n) ≡ false → (n == m) ≡ false
equal_sym m n h = ground arith

pub at_index :
    (edges : List Edge) {e : Edge} (m n : ℕ)
    → m ≡ n
    → get_elem? edges m ≡ some e
    → get_elem? edges n ≡ some e
at_index edges {e} m n same at = subst (λ k. get_elem? edges k ≡ some e) same at

module _ {F : Type 0} where
  -- No signal has the emitter of a later one.
  abbrev pub IsAlone : List (Signal F) → Type 0
  IsAlone [] = Unit
  IsAlone (s ∷ signals) = (is_emitting s.from signals ≡ false) × IsAlone signals

  -- The nodes have their indices as their ids.
  abbrev pub IsIndexed : ℕ → List (Node F) → Type 0
  IsIndexed i [] = Unit
  IsIndexed i (n ∷ nodes) = (n.id ≡ i) × IsIndexed (suc i) nodes

  -- The signal goes along an edge.
  abbrev pub IsAlong : List Edge → Signal F → Type 0
  IsAlong edges s = (k : ℕ) × (get_elem? edges k ≡ some (record { i = s.from; j = s.to }))

  is_emitting-snoc :
      (n : ℕ) (signals : List (Signal F)) (s : Signal F)
      → is_emitting n signals ≡ false
      → (s.from == n) ≡ false
      → is_emitting n (signals ++ s ∷ []) ≡ false
  unfolding is_emitting
  is_emitting-snoc n [] s h here = rw (here) refl
  is_emitting-snoc n (t ∷ signals) s h here =
      let (not_t, others) = or_false (t.from == n) (is_emitting n signals) h in
      rw (not_t) (is_emitting-snoc n signals s others here)

  IsAlone-snoc :
      (signals : List (Signal F)) (s : Signal F)
      → IsAlone signals
      → is_emitting s.from signals ≡ false
      → IsAlone (signals ++ s ∷ [])
  unfolding is_emitting
  IsAlone-snoc [] s alone new = (refl, tt)
  IsAlone-snoc (t ∷ signals) s (apart, alone) new =
      let (not_t, others) = or_false (t.from == s.from) (is_emitting s.from signals) new in
      (
        is_emitting-snoc t.from signals s apart (equal_sym t.from s.from not_t),
        IsAlone-snoc signals s alone others,
      )

  -- Signals of a graph: alone at their emitters, along its edges.
  abbrev pub IsTraffic : List Edge → List (Signal F) → Type 0
  IsTraffic edges signals = IsAlone signals × All (IsAlong edges) signals

  All-snoc :
      (P : Signal F → Type 0) (signals : List (Signal F)) (s : Signal F)
      → All P signals
      → P s
      → All P (signals ++ s ∷ [])
  All-snoc P [] s h here = (here, tt)
  All-snoc P (t ∷ signals) s (h, hs) here = (h, All-snoc P signals s hs here)

module _ {F : Type 0} (ops : Ops F) where
  is_emitting-advance_all :
      (n : ℕ) (signals : List (Signal F))
      → is_emitting n signals ≡ false
      → is_emitting n (advance_all ops signals) ≡ false
  unfolding is_emitting advance_all
  is_emitting-advance_all n [] h = refl
  is_emitting-advance_all n (s ∷ signals) h =
      let (not_s, others) = or_false (s.from == n) (is_emitting n signals) h in
      elim (Bool-cases (arrived ops s)) [
        | inl done ↦ rw (done) (is_emitting-advance_all n signals others)
        | inr running ↦ rw (running, not_s) (is_emitting-advance_all n signals others)
      ]

  advance_all-IsTraffic :
      (edges : List Edge) (signals : List (Signal F))
      → IsTraffic edges signals
      → IsTraffic edges (advance_all ops signals)
  unfolding advance_all
  advance_all-IsTraffic edges [] h = h
  advance_all-IsTraffic edges (s ∷ signals) ((apart, alone), (along, others)) =
      let (fewer, kept) = advance_all-IsTraffic edges signals (alone, others) in
      elim (Bool-cases (arrived ops s)) [
        | inl done ↦ rw (done) (fewer, kept)
        | inr running ↦
            rw (running) ((is_emitting-advance_all s.from signals apart, fewer), (along, kept))
      ]

  spawn-IsTraffic :
      (edges : List Edge) (k : ℕ) (e : Edge) (drawn : F × F) (signals : List (Signal F))
      → get_elem? edges k ≡ some e
      → IsTraffic edges signals
      → IsTraffic edges (spawn ops e drawn signals)
  unfolding spawn
  spawn-IsTraffic edges k e (chance, r) signals at (alone, along) =
      elim (Bool-cases (ops.lt chance (ops.lit "0.002"))) [
        | inr unlucky ↦ rw (unlucky) (alone, along)
        | inl lucky ↦ elim (Bool-cases (is_emitting e.i signals)) [
          | inl busy ↦ rw (lucky, busy) (alone, along)
          | inr free ↦
              rw (lucky, free)
                (
                  IsAlone-snoc signals (new_signal ops e r) alone free,
                  All-snoc (IsAlong edges) signals (new_signal ops e r) along (k, at),
                )
        ]
      ]

  pub spawn_all-IsTraffic :
      (edges rest : List Edge) (draw : ℕ → F × F) (k : ℕ) (signals : List (Signal F))
      → ((n : ℕ) (e : Edge) → get_elem? rest n ≡ some e → get_elem? edges (k + n) ≡ some e)
      → IsTraffic edges signals
      → IsTraffic edges (spawn_all ops rest draw k signals)
  unfolding spawn_all
  spawn_all-IsTraffic edges [] draw k signals within h = h
  spawn_all-IsTraffic edges (e ∷ rest) draw k signals within h =
      spawn_all-IsTraffic edges rest draw (k + 1) (spawn ops e (draw k) signals)
        (λ n f at. at_index edges (k + suc n) (k + 1 + n) (omega arith) (within (suc n) f at))
        (spawn-IsTraffic edges (k + 0) e (draw k) signals (within 0 e refl) h)

  -- What a frame comes to, in one pass.
  pub render-advance_all :
      (width height : F) (edges : List Edge) (draw : ℕ → F × F)
      (shown : List (Node F) × List (Signal F))
      → render ops width height edges draw shown
        ≡ some (
          map (move_node ops width height) shown.0,
          advance_all ops (spawn_all ops edges draw 0 shown.1),
        )
  unfolding render
  render-advance_all width height edges draw (nodes, signals) =
      rw (render, update_down-advance_all ops (spawn_all ops edges draw 0 signals)) refl

  advanced_IsTraffic :
      (edges : List Edge) (draw : ℕ → F × F) (signals : List (Signal F))
      → IsTraffic edges signals
      → IsTraffic edges (advance_all ops (spawn_all ops edges draw 0 signals))
  advanced_IsTraffic edges draw signals h =
      (advance_all-IsTraffic edges (spawn_all ops edges draw 0 signals) (
        spawn_all-IsTraffic edges edges draw 0 signals
          (λ n e at. at_index edges n (0 + n) (omega arith) at) h))

  pub moved_IsIndexed :
      (width height : F) (i : ℕ) (nodes : List (Node F))
      → IsIndexed i nodes
      → IsIndexed i (map (move_node ops width height) nodes)
        × (length (map (move_node ops width height) nodes) ≡ length nodes)
  unfolding move_node
  moved_IsIndexed width height i [] h = (tt, refl)
  moved_IsIndexed width height i (n ∷ nodes) (here, h) =
      let (later, same) = moved_IsIndexed width height (suc i) nodes h in
      ((here, later), ap suc same)

  pub init_nodes-IsIndexed :
      (width height : F) (i : ℕ) (draws : List (F × F × F × F))
      → IsIndexed i (init_nodes ops width height i draws)
  unfolding init_nodes init_node
  init_nodes-IsIndexed width height i [] = tt
  init_nodes-IsIndexed width height i (draw ∷ draws) = (
    refl,
    subst (λ k. IsIndexed k (init_nodes ops width height (i + 1) draws)) (omega arith)
        (init_nodes-IsIndexed width height (i + 1) draws),
  )

  -- If each node has its index as its id, as `init_nodes` makes them, then after any frames,
  -- whatever is drawn and however the window is resized, no two signals come from one node, each
  -- signal goes along an edge in its direction, and there are as many nodes as before, each with
  -- its index as its id.
  pub Frames-IsTraffic :
      (nodes : List (Node F)) (edges : List Edge) {shown : List (Node F) × List (Signal F)}
      → IsIndexed 0 nodes
      → Frames ops nodes edges shown
      → IsTraffic edges shown.1 × IsIndexed 0 shown.0 × (length shown.0 ≡ length nodes)
  Frames-IsTraffic nodes edges indexed first = ((tt, tt), indexed, refl)
  Frames-IsTraffic nodes edges indexed (next {shown} {later} width height draw before fine) =
      let (traffic, still, size) = Frames-IsTraffic nodes edges indexed before in
      let (moved, same) = moved_IsIndexed width height 0 shown.0 still in
      subst
        (λ (s : List (Node F) × List (Signal F)).
          IsTraffic edges s.1 × IsIndexed 0 s.0 × (length s.0 ≡ length nodes))
        (some-injective _ _ (sym (render-advance_all width height edges draw shown) ∙ fine))
        (advanced_IsTraffic edges draw shown.1 traffic, moved, same ∙ size)
