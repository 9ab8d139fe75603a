-- ===== src/Runtime/Pool/Rotation.antt =====
-- Schedules in rotation, and how many of a schedule's turns go to workers with something to do.
use feedo.Base.{
  ℕ, zero, suc, ◌+◌, ◌-◌, ◌≤◌, ◌<◌, ◌≡◌, ◌≢◌, refl, List, [], ◌∷◌, ◌++◌, true, false, ◌⊎◌, inl, inr,
  get_elem?, replicate, arith, ltb, Bool-cases, Option-cases, get_elem?-set_ne, if◌then◌else◌,
}
use native.Mathlib.Decide.{ℕ_discrete}
use feedo.Runtime.Wire.{Call, Error}
use feedo.Runtime.Async.{Async, done, fail, read, write, now, call, Env}
use feedo.Runtime.Bounds.{Contract, Within}
use feedo.Runtime.Pool.{Thread, idle, busy, stopped, crashed, Pool, advance, turn, run_schedule}
use feedo.Runtime.Pool.Progress.{live_at, Budget, Left, turn-Left, turn_of_not_live}

-- Each of `limit` workers once.
unfoldable pub rotation : ℕ → List ℕ
rotation zero = []
rotation (suc k) = k ∷ rotation k

unfoldable pub rotations : ℕ → ℕ → List ℕ
unfolding rotation
rotations zero limit = []
rotations (suc r) limit = rotation limit ++ rotations r limit

module _ (env : Env) {S B : Type 0} (jobs : ℕ → Async S B) (n : ℕ) where
  -- How many turns of a schedule go to workers that have something to do.
  unfoldable pub live_turns : List ℕ → Pool S B × S × env.World → ℕ
  unfolding turn live_at
  live_turns [] sys = 0
  live_turns (i ∷ is) sys =
      (if live_at i sys.0.threads then 1 else 0) + live_turns is (turn env jobs n i sys)

  run_schedule-append :
      (is js : List ℕ) (sys : Pool S B × S × env.World)
      → run_schedule env jobs n (is ++ js) sys
        ≡ run_schedule env jobs n js (run_schedule env jobs n is sys)
  unfolding run_schedule
  run_schedule-append [] js sys = refl
  run_schedule-append (i ∷ is) js sys = run_schedule-append is js (turn env jobs n i sys)

  -- A turn of another worker leaves worker `j` where it is.
  advance_other :
      (i j : ℕ) (t : Thread S B) (p : Pool S B) (s : S) (w : env.World)
      → i ≢ j
      → get_elem? (advance env jobs n i t (p, s, w)).0.threads j ≡ get_elem? p.threads j
  unfolding advance
  advance_other i j idle p s w ne = elim (Bool-cases (ltb p.next n)) [
    | inl more ↦ rw more (get_elem?-set_ne p.threads i j _ ne)
    | inr none_left ↦ rw none_left (get_elem?-set_ne p.threads i j _ ne)
  ]
  advance_other i j (busy k (done b)) p s w ne = get_elem?-set_ne p.threads i j _ ne
  advance_other i j (busy k (fail e)) p s w ne = get_elem?-set_ne p.threads i j _ ne
  advance_other i j (busy k (read f)) p s w ne = get_elem?-set_ne p.threads i j _ ne
  advance_other i j (busy k (write x q)) p s w ne = get_elem?-set_ne p.threads i j _ ne
  advance_other i j (busy k (now f)) p s w ne = get_elem?-set_ne p.threads i j _ ne
  advance_other i j (busy k (call c f)) p s w ne = get_elem?-set_ne p.threads i j _ ne
  advance_other i j stopped p s w ne = refl
  advance_other i j (crashed e) p s w ne = refl

  live_at-turn :
      (i j : ℕ) (p : Pool S B) (s : S) (w : env.World)
      → i ≢ j
      → live_at j (turn env jobs n i (p, s, w)).0.threads ≡ live_at j p.threads
  unfolding turn live_at
  live_at-turn i j p s w ne = elim (Option-cases (get_elem? p.threads i)) [
    | inl nobody ↦ rw (nobody, turn)
    | inr (t, at) ↦ rw (at, turn) (rw (advance_other i j t p s w ne, live_at))
  ]

  -- Some worker below `k` is live, or none is.
  find_live :
      (k : ℕ) (ts : List (Thread S B))
      → ((j : ℕ) × (j < k) × (live_at j ts ≡ true)) ⊎ ((j : ℕ) → j < k → live_at j ts ≡ false)
  find_live zero ts = inr (λ j h. absurd (omega arith))
  find_live (suc k) ts = elim (Bool-cases (live_at k ts)) [
    | inl live ↦ inl (k, omega arith, live)
    | inr dead ↦ elim (find_live k ts) [
      | inl (j, lt, live) ↦ inl (j, omega arith, live)
      | inr all ↦
          inr
            (λ j h. elim (ℕ_discrete j k) [ yes is ↦ rw is dead | no other ↦ all j (omega arith) ])
    ]
  ]

  abbrev pub IsDrained : ℕ → Pool S B → Type 0
  IsDrained limit p = (j : ℕ) → j < limit → live_at j p.threads ≡ false

  -- Once no worker is live, turns change nothing.
  drained_rotation :
      (k limit : ℕ) (p : Pool S B) (s : S) (w : env.World)
      → k ≤ limit
      → IsDrained limit p
      → run_schedule env jobs n (rotation k) (p, s, w) ≡ (p, s, w)
  unfolding rotation run_schedule
  drained_rotation zero limit p s w le dead = refl
  drained_rotation (suc k) limit p s w le dead =
      rw (turn_of_not_live n env jobs k p s w (dead k le), run_schedule)
        (drained_rotation k limit p s w (omega arith) dead)

  drained_rotations :
      (m limit : ℕ) (p : Pool S B) (s : S) (w : env.World)
      → IsDrained limit p
      → run_schedule env jobs n (rotations m limit) (p, s, w) ≡ (p, s, w)
  unfolding rotations
  drained_rotations zero limit p s w dead = unfold run_schedule in refl
  drained_rotations (suc m) limit p s w dead = rw run_schedule-append (
      rw (drained_rotation limit limit p s w (omega arith) dead)
        (drained_rotations m limit p s w dead))

  module _ (H : Contract) (P : ℕ → B → Type 0) (Q : Error → Type 0)
      (honest : (c : Call) (w : env.World) → H c (env.serve c w).0) (cost : ℕ)
      (jobs-Within : (k : ℕ) → k < n → Within H (P k) Q cost (jobs k)) where
    abbrev pub Few : Pool S B → ℕ → Type 0
    Few = Left H P Q n env honest jobs cost jobs-Within

    Few-le : (p : Pool S B) (m m' : ℕ) → m ≤ m' → Few p m → Few p m'
    Few-le p m m' le (r, b, h) = (r, b, omega arith)

    turn-Few :
        (i m : ℕ) (p : Pool S B) (s : S) (w : env.World)
        → Few p m
        → Few (turn env jobs n i (p, s, w)).0 m
    turn-Few i m p s w few = elim (Bool-cases (live_at i p.threads)) [
      | inl live ↦
          Few-le (turn env jobs n i (p, s, w)).0 (m - 1) m (omega arith)
            (turn-Left H P Q n env honest jobs cost jobs-Within i m p s w live few).0
      | inr dead ↦ rw (turn_of_not_live n env jobs i p s w dead) few
    ]

    run_schedule-Few :
        (is : List ℕ) (m : ℕ) (p : Pool S B) (s : S) (w : env.World)
        → Few p m
        → Few (run_schedule env jobs n is (p, s, w)).0 m
    unfolding run_schedule
    run_schedule-Few [] m p s w few = few
    run_schedule-Few (i ∷ is) m p s w few =
        let (p', s', w') = turn env jobs n i (p, s, w) in
        run_schedule-Few is m p' s' w' (turn-Few i m p s w few)

    -- A round in which some worker is live is progress.
    rotation-Few :
        (k j m : ℕ) (p : Pool S B) (s : S) (w : env.World)
        → j < k
        → live_at j p.threads ≡ true
        → Few p m
        → Few (run_schedule env jobs n (rotation k) (p, s, w)).0 (m - 1) × (1 ≤ m)
    unfolding rotation run_schedule
    rotation-Few zero j m p s w lt live few = absurd (omega arith)
    rotation-Few (suc k) j m p s w lt live few = elim (ℕ_discrete k j) [
      | yes is ↦
          let (p', s', w') = turn env jobs n k (p, s, w) in
          let (few', pos) =
            turn-Left H P Q n env honest jobs cost jobs-Within k m p s w (rw is live) few in
          (run_schedule-Few (rotation k) (m - 1) p' s' w' few', pos)
      | no other ↦
          let (p', s', w') = turn env jobs n k (p, s, w) in
          rotation-Few k j m p' s' w' (omega arith) (rw (live_at-turn k j p s w other) live)
            (turn-Few k m p s w few)
    ]

    pub rotations-IsDrained :
        (limit m : ℕ) (p : Pool S B) (s : S) (w : env.World)
        → Few p m
        → IsDrained limit (run_schedule env jobs n (rotations m limit) (p, s, w)).0
    unfolding rotations
    rotations-IsDrained limit zero p s w few = elim (find_live limit p.threads) [
      | inl (j, lt, live) ↦ absurd (omega (arith, (rotation-Few limit j 0 p s w lt live few).1))
      | inr dead ↦ unfold run_schedule in dead
    ]
    rotations-IsDrained limit (suc m) p s w few = elim (find_live limit p.threads) [
      | inl (j, lt, live) ↦
          let (p', s', w') = run_schedule env jobs n (rotation limit) (p, s, w) in
          rw run_schedule-append (
            rotations-IsDrained limit m p' s' w' (
              Few-le p' (suc m - 1) m (omega arith)
                (rotation-Few limit j (suc m) p s w lt live few).0))
      | inr dead ↦ rw (drained_rotations (suc m) limit p s w dead) dead
    ]

    pub live_turns-le :
        (is : List ℕ) (m : ℕ) (p : Pool S B) (s : S) (w : env.World)
        → Few p m
        → live_turns is (p, s, w) ≤ m
    unfolding live_turns
    live_turns-le [] m p s w few = omega arith
    live_turns-le (i ∷ is) m p s w few = elim (Bool-cases (live_at i p.threads)) [
      | inl live ↦
          let (p', s', w') = turn env jobs n i (p, s, w) in
          let (few', pos) = turn-Left H P Q n env honest jobs cost jobs-Within i m p s w live few in
          rw live (omega (arith, live_turns-le is (m - 1) p' s' w' few'))
      | inr dead ↦
          let (p', s', w') = turn env jobs n i (p, s, w) in
          rw dead (omega (arith, live_turns-le is m p' s' w' (turn-Few i m p s w few)))
    ]

pub replicate-Budget :
    (H : Contract) (S B : Type 0) (P : ℕ → B → Type 0) (Q : Error → Type 0) (limit : ℕ)
    → Budget H {S = S} P Q (replicate limit idle) limit
replicate-Budget H S B P Q zero = tt
replicate-Budget H S B P Q (suc k) = (1, k, omega arith, replicate-Budget H S B P Q k, omega arith)
