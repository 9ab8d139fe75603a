-- ===== src/Runtime/Pool.antt =====
-- The promise pool of `uploadFile`, `downloadFile`, `uploadPrivateFile` and `downloadPrivateFile`:
-- workers that share the counter `i` and the array of results, run to the end by `Promise.all`.
pub mod Invariant
pub mod Ordered
pub mod Kept
pub mod Progress
pub mod Rotation
pub mod Total
pub mod Tests
use feedo.Base.{
  ℕ, ◌+◌, List, [], ◌∷◌, Option, none, some, get_elem?, set, replicate, ltb, if◌then◌else◌,
}
use feedo.Runtime.Wire.{Error}
use feedo.Runtime.Async.{Async, done, fail, read, write, now, call, Env, Outcome, ok, err, pending}

-- A worker about to test `i < chunks.length`, in the middle of the job for an index, or ended.
pub data Thread (S B : Type 0) : Type 0 where
  idle : Thread S B
  busy : ℕ → Async S B → Thread S B
  stopped : Thread S B
  crashed : Error → Thread S B

-- `next` is the counter `i`; `results` is `new Array(n)`, with `none` for a hole; `rejected` is
-- the first error thrown, with which `Promise.all` rejects.
pub record Pool (S B : Type 0) : Type 0 where
  pub next : ℕ
  pub results : List (Option B)
  pub threads : List (Thread S B)
  pub rejected : Option Error

abbrev pub first_error : Option Error → Error → Option Error
first_error none e = some e
first_error (some e) _ = some e

module _ (env : Env) {S B : Type 0} (jobs : ℕ → Async S B) (n : ℕ) where
  -- The state of the pool, the shared object and the world.
  abbrev pub Sys : Type 0
  Sys = Pool S B × S × env.World

  unfoldable pub start_pool : ℕ → S → env.World → Sys
  start_pool limit s w = (
    record {
      next = 0;
      results = replicate n none;
      threads = replicate limit idle;
      rejected = none;
    },
    s,
    w,
  )

  abbrev put_thread : ℕ → Thread S B → Pool S B → Pool S B
  put_thread i t p = record p { threads = set p.threads i t }

  -- The next action of worker `i`, which is at `t`.
  unfoldable pub advance : ℕ → Thread S B → Sys → Sys
  advance i idle (p, s, w) =
      if ltb p.next n
      then (
        record p { next = p.next + 1; threads = set p.threads i (busy p.next (jobs p.next)) },
        s,
        w,
      )
      else (put_thread i stopped p, s, w)
  advance i (busy k (done b)) (p, s, w) =
      (record p { results = set p.results k (some b); threads = set p.threads i idle }, s, w)
  advance i (busy k (fail e)) (p, s, w) = (
    record p { threads = set p.threads i (crashed e); rejected = first_error p.rejected e },
    s,
    w,
  )
  advance i (busy k (read f)) (p, s, w) = (put_thread i (busy k (f s)) p, s, w)
  advance i (busy k (write s' q)) (p, s, w) = (put_thread i (busy k q) p, s', w)
  advance i (busy k (now f)) (p, s, w) = (put_thread i (busy k (f (env.clock w))) p, s, w)
  advance i (busy k (call c f)) (p, s, w) =
      let (r, w') = env.serve c w in (put_thread i (busy k (f r)) p, s, w')
  advance i stopped sys = sys
  advance i (crashed e) sys = sys

  -- One turn for worker `i`.
  unfoldable pub turn : ℕ → Sys → Sys
  unfolding advance
  turn i sys = elim (get_elem? sys.0.threads i) [ none ↦ sys | some t ↦ advance i t sys ]

  -- A schedule names the worker of each turn. It goes on after a rejection, as the workers do.
  unfoldable pub run_schedule : List ℕ → Sys → Sys
  unfolding turn
  run_schedule [] sys = sys
  run_schedule (i ∷ is) sys = run_schedule is (turn i sys)

  unfoldable pub all_stopped :
      List (Thread S B) → Outcome (List (Option B)) → Outcome (List (Option B))
  all_stopped [] o = o
  all_stopped (stopped ∷ ts) o = all_stopped ts o
  all_stopped (t ∷ ts) o = pending

  -- `await Promise.all(workers)`
  unfoldable pub outcome_of : Pool S B → Outcome (List (Option B))
  unfolding all_stopped
  outcome_of p = elim p.rejected [ some e ↦ err e | none ↦ all_stopped p.threads (ok p.results) ]

  unfoldable pub run_pool : ℕ → List ℕ → S → env.World → Outcome (List (Option B)) × S × env.World
  unfolding start_pool run_schedule outcome_of
  run_pool limit schedule s w =
      let (p, s', w') = run_schedule schedule (start_pool limit s w) in (outcome_of p, s', w')
