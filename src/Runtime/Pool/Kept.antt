-- ===== src/Runtime/Pool/Kept.antt =====
-- What of the world the calls of the jobs keep, the pool keeps, whatever the schedule.
use feedo.Base.{
  ℕ, ◌≡◌, sym, subst, List, [], ◌∷◌, some, inl, inr, get_elem?, get_elem?-replicate, set_keeps, ltb,
  Bool-cases, Option-cases,
}
use feedo.Runtime.Wire.{Call}
use feedo.Runtime.Async.{Async, done, fail, read, write, now, call, Env}
use feedo.Runtime.Calls.{Calls}
use feedo.Runtime.Pool.{
  Thread, idle, busy, stopped, crashed, start_pool, advance, turn, run_schedule, run_pool, Sys,
}

module _ (C : Call → Type 0) (env : Env) (I : env.World → Type 0)
    (kept : (c : Call) (w : env.World) → C c → I w → I (env.serve c w).1) {S B : Type 0}
    (jobs : ℕ → Async S B) (n : ℕ) (jobs-Calls : (k : ℕ) → Calls C (jobs k)) where
  -- The calls that a worker has left.
  abbrev Left : Thread S B → Type 0
  Left idle = Unit
  Left (busy k p) = Calls C p
  Left stopped = Unit
  Left (crashed e) = Unit

  abbrev Kept : Sys env jobs n → Type 0
  Kept (p, s, w) = ((i : ℕ) (t : Thread S B) → get_elem? p.threads i ≡ some t → Left t) × I w

  advance-Kept :
      (i : ℕ) (t : Thread S B) (sys : Sys env jobs n)
      → Left t
      → Kept sys
      → Kept (advance env jobs n i t sys)
  unfolding advance
  advance-Kept i idle (p, s, w) left (all, here) = elim (Bool-cases (ltb p.next n)) [
    | inl more ↦
        rw more
          (set_keeps Left p.threads i (busy p.next (jobs p.next)) all (jobs-Calls p.next), here)
    | inr none_left ↦ rw none_left (set_keeps Left p.threads i stopped all tt, here)
  ]
  advance-Kept i (busy k (done b)) (p, s, w) left (all, here) =
      (set_keeps Left p.threads i idle all tt, here)
  advance-Kept i (busy k (fail e)) (p, s, w) left (all, here) =
      (set_keeps Left p.threads i (crashed e) all tt, here)
  advance-Kept i (busy k (read f)) (p, s, w) left (all, here) =
      (set_keeps Left p.threads i (busy k (f s)) all (left s), here)
  advance-Kept i (busy k (write s' q)) (p, s, w) left (all, here) =
      (set_keeps Left p.threads i (busy k q) all left, here)
  advance-Kept i (busy k (now f)) (p, s, w) left (all, here) =
      (set_keeps Left p.threads i (busy k (f (env.clock w))) all (left (env.clock w)), here)
  advance-Kept i (busy k (call c f)) (p, s, w) (made, left) (all, here) = (
    set_keeps Left p.threads i (busy k (f (env.serve c w).0)) all (left (env.serve c w).0),
    kept c w made here,
  )
  advance-Kept i stopped sys left h = h
  advance-Kept i (crashed e) sys left h = h

  run_schedule-Kept :
      (is : List ℕ) (sys : Sys env jobs n) → Kept sys → Kept (run_schedule env jobs n is sys)
  unfolding run_schedule turn
  run_schedule-Kept [] sys h = h
  run_schedule-Kept (i ∷ is) sys h =
      run_schedule-Kept is (turn env jobs n i sys)
        (elim (Option-cases (get_elem? sys.0.threads i)) [
          | inl nobody ↦ rw (nobody, turn) h
          | inr (t, at) ↦ rw (at, turn) (advance-Kept i t sys (h.0 i t at) h)
        ])

  pub run_pool-Kept :
      (limit : ℕ) (schedule : List ℕ) (s : S) (w : env.World)
      → I w
      → I (run_pool env jobs n limit schedule s w).2
  unfolding run_pool start_pool
  run_pool-Kept limit schedule s w here =
      (run_schedule-Kept schedule (start_pool env jobs n limit s w) (
        λ i t at.
            let is : t ≡ idle = get_elem?-replicate limit i idle t at in subst Left (sym is) tt,
        here,
      )).1
