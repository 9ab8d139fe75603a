-- ===== src/Runtime/Pool/Tests.antt =====
-- Three jobs for two workers, where the job for an index asks the network and returns the index.
use feedo.Base.{true, ℕ, suc, ◌+◌, ◌*◌, ◌≤◌, ◌<◌, ◌≡◌, refl, List, [], ◌∷◌, arith}
use feedo.Runtime.Wire.{race, settled, Error}
use feedo.Runtime.Async.{Async, done, call, Env}
use feedo.Runtime.Bounds.{Contract, Within, Ends}
use feedo.Runtime.Pool.{start_pool, run_pool}
use feedo.Runtime.Pool.Ordered.{IsComplete, Settles, run_pool-Settles}
use feedo.Runtime.Pool.Rotation.{rotations, live_turns}
use feedo.Runtime.Pool.Total.{run_pool-Ends, start_pool-live_turns}

abbrev network_up : Env
network_up = record { World = ℕ; serve = λ c w. (settled ((0, true) ∷ []), suc w); clock = λ w. w }

abbrev Any : Contract
Any c r = Unit

abbrev Never : Error → Type 0
Never e = ⊥

abbrev job : ℕ → Async ℕ ℕ
job k = call (race []) (λ r. done k)

job-Within : (k : ℕ) → k < 3 → Within Any (λ n. n ≡ k) Never 1 (job k)
job-Within k lt = λ r honest. refl

-- The second worker has the second job done before the first has begun.
abbrev uneven : List ℕ
uneven = 0 ∷ 1 ∷ 1 ∷ 1 ∷ 1 ∷ 1 ∷ 1 ∷ 0 ∷ 0 ∷ 0 ∷ 1 ∷ []

run_pool-Settles_example : Settles (λ k n. n ≡ k) Never 3 (run_pool network_up job 3 2 uneven 0 0).0
run_pool-Settles_example =
    run_pool-Settles Any (λ k n. n ≡ k) Never 3 2 network_up (λ c w. tt) job 1 job-Within uneven 0 0
      (omega arith)

run_pool-Ends_example :
    Ends
      (IsComplete (λ k n. n ≡ k) Never 3)
      Never
      ⊥
      (run_pool network_up job 3 2 (rotations 14 2) 0 0).0
run_pool-Ends_example =
    run_pool-Ends Any (λ k n. n ≡ k) Never 3 2 network_up (λ c w. tt) job 1 job-Within 14 0 0
      (omega arith) (omega arith)

start_pool-live_turns_example :
    live_turns network_up job 3 uneven (start_pool network_up job 3 2 0 0) ≤ 3 * (1 + 3) + 2
start_pool-live_turns_example =
    start_pool-live_turns Any (λ k n. n ≡ k) Never 3 2 network_up (λ c w. tt) job 1 job-Within
      uneven 0 0
