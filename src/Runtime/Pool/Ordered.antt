-- ===== src/Runtime/Pool/Ordered.antt =====
-- What the results of a pool are, under any schedule.
use feedo.Base.{
  ℕ, zero, suc, ◌≤◌, ◌<◌, ◌≡◌, refl, List, [], ◌∷◌, Option, none, some, inl, inr, length, get_elem?,
  subst, arith, Option-cases,
}
use feedo.Runtime.Wire.{Call, Error}
use feedo.Runtime.Async.{Async, Env, Outcome, ok, err, pending}
use feedo.Runtime.Bounds.{Contract, Within, Ends}
use feedo.Runtime.Pool.{
  Thread, busy, stopped, Pool, start_pool, run_schedule, all_stopped, outcome_of, run_pool,
}
use feedo.Runtime.Pool.Invariant.{Good, Fate, filled, running, lost, Inv, pool-Inv}

module _ {B : Type 0} (P : ℕ → B → Type 0) (Q : Error → Type 0) (n : ℕ) where
  -- The array has the `n` results, each at the index of its job.
  abbrev pub IsComplete : List (Option B) → Type 0
  IsComplete rs =
      (length rs ≡ n) × ((k : ℕ) → k < n → (b : B) × (get_elem? rs k ≡ some (some b)) × P k b)

  -- What each way to settle says.
  abbrev pub Settles : Outcome (List (Option B)) → Type 0
  Settles = Ends IsComplete Q Unit

module _ (H : Contract) {S B : Type 0} (P : ℕ → B → Type 0) (Q : Error → Type 0) (n limit : ℕ) where
  all_stopped-eq-ok :
      (env : Env) (jobs : ℕ → Async S B) (ts : List (Thread S B)) (rs rs' : List (Option B))
      → all_stopped env jobs n ts (ok rs) ≡ ok rs'
      → (rs ≡ rs') × ((i : ℕ) (t : Thread S B) → get_elem? ts i ≡ some t → t ≡ stopped)
  unfolding all_stopped
  all_stopped-eq-ok env jobs [] rs rs' e = (cc, λ i t h. cc)
  all_stopped-eq-ok env jobs (stopped ∷ ts) rs rs' e =
      let (same, all) = all_stopped-eq-ok env jobs ts rs rs' e in (same, after all)
    where
      after :
          ((i : ℕ) (t : Thread S B) → get_elem? ts i ≡ some t → t ≡ stopped)
          → (i : ℕ) (t : Thread S B) → get_elem? (stopped ∷ ts) i ≡ some t
          → t ≡ stopped
      after all zero t h = cc
      after all (suc i) t h = all i t h
  all_stopped-eq-ok env jobs (t ∷ ts) rs rs' e = cc

  all_stopped-ne-err :
      (env : Env) (jobs : ℕ → Async S B) (ts : List (Thread S B)) (rs : List (Option B)) (x : Error)
      → all_stopped env jobs n ts (ok rs) ≡ err x
      → ⊥
  unfolding all_stopped
  all_stopped-ne-err env jobs [] rs x e = cc
  all_stopped-ne-err env jobs (stopped ∷ ts) rs x e = all_stopped-ne-err env jobs ts rs x e
  all_stopped-ne-err env jobs (t ∷ ts) rs x e = cc

  -- Where every worker has stopped, every index below `n` has its result.
  complete :
      (p : Pool S B) (k : ℕ)
      → Inv H P Q n limit p
      → p.rejected ≡ none
      → 0 < limit
      → ((i : ℕ) (t : Thread S B) → get_elem? p.threads i ≡ some t → t ≡ stopped)
      → k < n
      → (b : B) × (get_elem? p.results k ≡ some (some b)) × P k b
  complete p k inv quiet pos all lt = ended (inv.fate k (omega (arith, all_claimed)))
    where
      first :
          (xs : List (Thread S B)) → 0 < length xs → (t : Thread S B) × (get_elem? xs 0 ≡ some t)
      first [] h = absurd (omega arith)
      first (x ∷ xs) h = (x, refl)

      all_claimed : n ≤ p.next
      all_claimed =
          let (t, at) = first p.threads (omega (arith, inv.crew)) in
          subst (Good H P Q n limit p.next) (all 0 t at) (inv.good 0 t at)

      ended :
          Fate H P Q n limit p.results p.threads p.rejected k
          → (b : B) × (get_elem? p.results k ≡ some (some b)) × P k b
      ended (filled b e h) = (b, e, h)
      ended (running i q e) = cc (all i (busy k q) e)
      ended (lost e h) = cc

  outcome_of-Settles :
      (env : Env) (jobs : ℕ → Async S B) (p : Pool S B)
      → Inv H P Q n limit p
      → 0 < limit
      → Settles P Q n (outcome_of env jobs n p)
  unfolding outcome_of
  outcome_of-Settles env jobs p inv pos = elim (Option-cases p.rejected) [
    | inl quiet ↦
        rw (quiet, outcome_of)
          (settled (all_stopped env jobs n p.threads (ok p.results)) quiet refl)
    | inr (e, known) ↦ rw (known, outcome_of) (inv.thrown e known)
  ]
    where
      settled :
          (o : Outcome (List (Option B)))
          → p.rejected ≡ none
          → all_stopped env jobs n p.threads (ok p.results) ≡ o
          → Settles P Q n o
      settled (ok rs) quiet e =
          let (same, all) = all_stopped-eq-ok env jobs p.threads p.results rs e in
          subst (IsComplete P Q n) same (inv.size, λ k lt. complete p k inv quiet pos all lt)
      settled (err x) quiet e = absurd (all_stopped-ne-err env jobs p.threads p.results x e)
      settled pending quiet e = tt

  module _ (env : Env) (honest : (c : Call) (w : env.World) → H c (env.serve c w).0)
      (jobs : ℕ → Async S B) (cost : ℕ)
      (jobs-Within : (k : ℕ) → k < n → Within H (P k) Q cost (jobs k)) where
    -- Whatever the schedule, if there is a worker, the network keeps to its contract and each job
    -- does so within some number of actions: where `Promise.all` is fulfilled, the array of results
    -- has one entry for each index, with the result of the job of that index, where it is rejected,
    -- the error is one that a job may throw, and of a pool that is pending nothing is said.
    pub run_pool-Settles :
        (schedule : List ℕ) (s : S) (w : env.World)
        → 0 < limit
        → Settles P Q n (run_pool env jobs n limit schedule s w).0
    unfolding run_pool
    run_pool-Settles schedule s w pos =
        outcome_of-Settles env jobs
          (run_schedule env jobs n schedule (start_pool env jobs n limit s w)).0
          (pool-Inv H P Q n limit env honest jobs cost jobs-Within schedule s w) pos
