-- ===== src/Runtime/Pool/Total.antt =====
-- How and when a pool whose workers take turns in rotation ends.
use feedo.Base.{
  ◌⊎◌, ℕ, suc, ◌+◌, ◌-◌, ◌*◌, ◌≤◌, ◌<◌, ◌≡◌, refl, List, [], ◌∷◌, Option, none, some, false, inl,
  inr, get_elem?, arith, Option-cases, lt-length_of_get_elem?,
}
use feedo.Runtime.Wire.{Call, Error}
use feedo.Runtime.Async.{Async, Env, Outcome, ok, err, pending}
use feedo.Runtime.Bounds.{Contract, Within, Ends}
use feedo.Runtime.Pool.{
  Thread, idle, busy, stopped, crashed, Pool, start_pool, run_schedule, all_stopped, outcome_of,
  run_pool,
}
use feedo.Runtime.Pool.Invariant.{Inv, pool-Inv}
use feedo.Runtime.Pool.Ordered.{IsComplete, Settles, run_pool-Settles}
use feedo.Runtime.Pool.Progress.{is_live, live_at}
use feedo.Runtime.Pool.Rotation.{
  rotations, live_turns, live_turns-le, IsDrained, rotations-IsDrained, replicate-Budget,
}

Settles-Ends :
    {B : Type 0} (P : ℕ → B → Type 0) (Q : Error → Type 0) (n : ℕ) (o : Outcome (List (Option B)))
    → ¬ (o ≡ pending)
    → Settles P Q n o
    → Ends (IsComplete P Q n) Q ⊥ o
Settles-Ends P Q n (ok rs) h s = s
Settles-Ends P Q n (err e) h s = s
Settles-Ends P Q n pending h s = h refl

module _ {S B : Type 0} where
  -- A worker that keeps `Promise.all` waiting.
  all_stopped-pending :
      (env : Env) (jobs : ℕ → Async S B) (n : ℕ) (ts : List (Thread S B)) (rs : List (Option B))
      → all_stopped env jobs n ts (ok rs) ≡ pending
      → (i : ℕ) × (t : Thread S B) × (get_elem? ts i ≡ some t) × (¬ (t ≡ stopped))
  unfolding all_stopped
  all_stopped-pending env jobs n [] rs e = cc
  all_stopped-pending env jobs n (stopped ∷ ts) rs e =
      let (i, t, at, ne) = all_stopped-pending env jobs n ts rs e in (suc i, t, at, ne)
  all_stopped-pending env jobs n (t ∷ ts) rs e = (0, t, refl, λ is. cc)

  not_pending :
      (H : Contract) (P : ℕ → B → Type 0) (Q : Error → Type 0) (n limit : ℕ) (env : Env)
      (jobs : ℕ → Async S B) (p : Pool S B)
      → Inv H P Q n limit p
      → IsDrained env jobs n limit p
      → ¬ (outcome_of env jobs n p ≡ pending)
  unfolding outcome_of live_at is_live
  not_pending H P Q n limit env jobs p inv dead e = elim (Option-cases p.rejected) [
    | inl quiet ↦
        let (i, t, at, ne) =
          all_stopped-pending env jobs n p.threads p.results (rw (quiet, outcome_of) at e) in
        let lt : i < limit = omega (arith, lt-length_of_get_elem? p.threads i t at, inv.crew) in
        ended i t at ne (rw (at, live_at) at (dead i lt)) quiet
    | inr (x, known) ↦ let e' = rw (known, outcome_of) at e in cc
  ]
    where
      ended :
          (i : ℕ) (t : Thread S B)
          → get_elem? p.threads i ≡ some t
          → ¬ (t ≡ stopped)
          → is_live t ≡ false
          → p.rejected ≡ none
          → ⊥
      ended i idle at ne h quiet = cc
      ended i (busy k q) at ne h quiet = cc
      ended i stopped at ne h quiet = ne refl
      ended i (crashed x) at ne h quiet = let (y, is) = inv.seen i (crashed x) at x refl in cc

nothing_claimed : (n c limit m : ℕ) → n * c + limit ≤ m → (n - 0) * c + limit ≤ m
nothing_claimed n c limit m h = let e : n - 0 ≡ n = omega arith in rw e h

-- For `n` jobs of at most `cost` actions: either the rounds are enough, or, with `R`, it is left open
-- whether the pool settles.
abbrev pub Fair : Type 0 → ℕ → ℕ → ℕ → List ℕ → Type 0
Fair R n cost limit schedule =
    R ⊎ ((rounds : ℕ) × (schedule ≡ rotations rounds limit) × (n * (cost + 3) + limit ≤ rounds))

module _ (H : Contract) {S B : Type 0} (P : ℕ → B → Type 0) (Q : Error → Type 0) (n limit : ℕ)
    (env : Env) (honest : (c : Call) (w : env.World) → H c (env.serve c w).0) (jobs : ℕ → Async S B)
    (cost : ℕ) (jobs-Within : (k : ℕ) → k < n → Within H (P k) Q cost (jobs k)) where
  -- If there is a worker, the network keeps to its contract and each of `n` jobs does so within
  -- `cost` actions, then `n * (cost + 3) + limit` rounds in which every worker has a turn settle
  -- the pool: with a complete array, or with an error that a job may throw.
  pub run_pool-Ends :
      (rounds : ℕ) (s : S) (w : env.World)
      → 0 < limit
      → n * (cost + 3) + limit ≤ rounds
      → Ends (IsComplete P Q n) Q ⊥ (run_pool env jobs n limit (rotations rounds limit) s w).0
  unfolding run_pool
  run_pool-Ends rounds s w pos enough =
      let schedule = rotations rounds limit in
      let (p, s', w') = start_pool env jobs n limit s w in
      let inv = pool-Inv H P Q n limit env honest jobs cost jobs-Within schedule s w in
      let dead = rotations-IsDrained env jobs n H P Q honest cost jobs-Within limit rounds p s' w' (
        unfold start_pool in
        (
          limit,
          replicate-Budget H S B P Q limit,
          nothing_claimed n (cost + 3) limit rounds enough,
        )) in
      Settles-Ends P Q n _
        (not_pending H P Q n limit env jobs (run_schedule env jobs n schedule (p, s', w')).0 inv
          dead)
        (unfold run_pool in
          run_pool-Settles H P Q n limit env honest jobs cost jobs-Within schedule s w pos)

  -- Whatever the schedule, the workers of a pool whose `n` jobs take at most `cost` actions under
  -- the contract have something to do in at most `n * (cost + 3) + limit` of its turns.
  pub start_pool-live_turns :
      (schedule : List ℕ) (s : S) (w : env.World)
      → live_turns env jobs n schedule (start_pool env jobs n limit s w) ≤ n * (cost + 3) + limit
  unfolding start_pool
  start_pool-live_turns schedule s w =
      live_turns-le env jobs n H P Q honest cost jobs-Within schedule (n * (cost + 3) + limit) _ s w
        (
          limit,
          replicate-Budget H S B P Q limit,
          nothing_claimed n (cost + 3) limit _ (omega arith),
        )

  pub pool-Ends :
      (R : Type 0) (schedule : List ℕ) (s : S) (w : env.World)
      → 0 < limit
      → Fair R n cost limit schedule
      → Ends (IsComplete P Q n) Q R (run_pool env jobs n limit schedule s w).0
  pool-Ends R schedule s w pos (inl r) =
      weaken (run_pool env jobs n limit schedule s w).0
        (run_pool-Settles H P Q n limit env honest jobs cost jobs-Within schedule s w pos)
    where
      weaken : (o : Outcome (List (Option B))) → Settles P Q n o → Ends (IsComplete P Q n) Q R o
      weaken (ok rs) h = h
      weaken (err e) h = h
      weaken pending h = r
  pool-Ends R schedule s w pos (inr (rounds, is, enough)) = rw is (
      weaken (run_pool env jobs n limit (rotations rounds limit) s w).0
        (run_pool-Ends rounds s w pos enough))
    where
      weaken :
          (o : Outcome (List (Option B)))
          → Ends (IsComplete P Q n) Q ⊥ o
          → Ends (IsComplete P Q n) Q R o
      weaken (ok rs) h = h
      weaken (err e) h = h
      weaken pending h = absurd h
