-- ===== src/Runtime/Pool/Invariant.antt =====
-- The invariant of a pool, which every turn of every worker keeps.
use feedo.Base.{
  ℕ, zero, suc, ◌+◌, ◌≤◌, ◌<◌, ◌≡◌, refl, inl, inr, List, [], ◌∷◌, Option, none, some, ◌≢◌, subst,
  sym, length, get_elem?, set, arith, ltb, ltb→lt, ltb→le, Bool-cases, Option-cases, length-set,
  length-replicate, get_elem?-set_self, get_elem?-set_ne, lt-length_of_get_elem?,
  get_elem?-replicate, set_keeps,
}
use native.Mathlib.Decide.{ℕ_discrete}
use feedo.Runtime.Wire.{Call, Error}
use feedo.Runtime.Async.{Async, done, fail, read, write, now, call, Env}
use feedo.Runtime.Bounds.{Contract, Within}
use feedo.Runtime.Pool.{
  Thread, idle, busy, stopped, crashed, Pool, first_error, start_pool, advance, turn, run_schedule,
}

first_error-some : (o : Option Error) (e : Error) → (x : Error) × (first_error o e ≡ some x)
first_error-some none e = (e, refl)
first_error-some (some x) e = (x, refl)

first_error-keeps :
    (Q : Error → Type 0) (o : Option Error) (e x : Error)
    → ((y : Error) → o ≡ some y → Q y)
    → Q e
    → first_error o e ≡ some x
    → Q x
first_error-keeps Q none e x all q h = let same : e ≡ x = cc in subst Q same q
first_error-keeps Q (some y) e x all q h = all x h

module _ (H : Contract) {S B : Type 0} (P : ℕ → B → Type 0) (Q : Error → Type 0) (n limit : ℕ) where
  -- A worker that has crashed has rejected the pool.
  abbrev pub IsSeen : Option Error → Thread S B → Type 0
  IsSeen rejected t = (e : Error) → t ≡ crashed e → (x : Error) × (rejected ≡ some x)

  -- What is known of a worker once `next` jobs are claimed.
  abbrev pub Good : ℕ → Thread S B → Type 0
  Good next idle = Unit
  Good next (busy k p) = (c : ℕ) × (k < next) × Within H (P k) Q c p
  Good next stopped = n ≤ next
  Good next (crashed e) = Q e

  -- What has become of the job `k`: it has its result in the array, a worker is at it, or the pool
  -- has been rejected.
  pub data Fate (results : List (Option B)) (threads : List (Thread S B)) (rejected : Option Error)
      (k : ℕ) : Type 0 where
    filled : (b : B) → get_elem? results k ≡ some (some b) → P k b → Fate results threads rejected k
    running :
        (i : ℕ) (q : Async S B)
        → get_elem? threads i ≡ some (busy k q)
        → Fate results threads rejected k
    lost : (e : Error) → rejected ≡ some e → Fate results threads rejected k

  pub record Inv (p : Pool S B) : Type 0 where
    pub bound : p.next ≤ n
    pub size : length p.results ≡ n
    pub crew : length p.threads ≡ limit
    pub good : (i : ℕ) (t : Thread S B) → get_elem? p.threads i ≡ some t → Good p.next t
    pub fate : (k : ℕ) → k < p.next → Fate p.results p.threads p.rejected k
    pub seen : (i : ℕ) (t : Thread S B) → get_elem? p.threads i ≡ some t → IsSeen p.rejected t
    pub thrown : (e : Error) → p.rejected ≡ some e → Q e

  -- A thread that is not busy with `k` is replaced, or goes on with `k`.
  move-Fate :
      {rs : List (Option B)} {rej : Option Error} (ts : List (Thread S B)) (i k : ℕ)
      (old new : Thread S B)
      → get_elem? ts i ≡ some old
      → ((q : Async S B) → old ≡ busy k q → (q' : Async S B) × (new ≡ busy k q'))
      → Fate rs ts rej k
      → Fate rs (set ts i new) rej k
  move-Fate ts i k old new at on (filled b e h) = filled b e h
  move-Fate ts i k old new at on (lost e h) = lost e h
  move-Fate ts i k old new at on (running j q e) = elim (ℕ_discrete i j) [
    | yes same ↦
        let was : old ≡ busy k q = cc in
        let (q', is) = on q was in
        running i q' (rw (get_elem?-set_self ts i new (lt-length_of_get_elem? ts i old at), is))
    | no other ↦ running j q (rw (get_elem?-set_ne ts i j new other) e)
  ]

  -- A write at another index.
  write-Fate :
      {ts : List (Thread S B)} {rej : Option Error} (rs : List (Option B)) (j k : ℕ) (v : Option B)
      → j ≢ k
      → Fate rs ts rej k
      → Fate (set rs j v) ts rej k
  write-Fate rs j k v ne (filled b e h) = filled b (rw (get_elem?-set_ne rs j k v ne) e) h
  write-Fate rs j k v ne (lost e h) = lost e h
  write-Fate rs j k v ne (running i q e) = running i q e

  -- A worker takes one of its own actions: the counter and the array stay.
  step-Inv :
      (p : Pool S B) (i k c : ℕ) (q q' : Async S B)
      → Inv p
      → get_elem? p.threads i ≡ some (busy k q)
      → k < p.next
      → Within H (P k) Q c q'
      → Inv (record p { threads = set p.threads i (busy k q') })
  step-Inv p i k c q q' inv at lt w = record {
    bound = inv.bound;
    size = inv.size;
    crew = rw length-set inv.crew;
    good = set_keeps (Good p.next) p.threads i (busy k q') inv.good (c, lt, w);
    fate =
        λ m h. move-Fate p.threads i m (busy k q) (busy k q') at (λ r e. (q', cc)) (inv.fate m h);
    seen = set_keeps (IsSeen p.rejected) p.threads i (busy k q') inv.seen (λ e h. cc);
    thrown = inv.thrown;
  }

  stop-Inv :
      (p : Pool S B) (i : ℕ)
      → Inv p
      → get_elem? p.threads i ≡ some idle
      → n ≤ p.next
      → Inv (record p { threads = set p.threads i stopped })
  stop-Inv p i inv at h = record {
    bound = inv.bound;
    size = inv.size;
    crew = rw length-set inv.crew;
    good = set_keeps (Good p.next) p.threads i stopped inv.good h;
    fate = λ m lt. move-Fate p.threads i m idle stopped at (λ r e. cc) (inv.fate m lt);
    seen = set_keeps (IsSeen p.rejected) p.threads i stopped inv.seen (λ e h. cc);
    thrown = inv.thrown;
  }

  Good-suc : (next : ℕ) (t : Thread S B) → Good next t → Good (next + 1) t
  Good-suc next idle g = tt
  Good-suc next (busy k q) (c, lt, w) = (c, omega arith, w)
  Good-suc next stopped g = omega arith
  Good-suc next (crashed e) g = g

  -- A worker claims the next index.
  claim-Inv :
      (p : Pool S B) (i c : ℕ) (job : Async S B)
      → Inv p
      → get_elem? p.threads i ≡ some idle
      → p.next < n
      → Within H (P p.next) Q c job
      → Inv (record p { next = p.next + 1; threads = set p.threads i (busy p.next job) })
  claim-Inv p i c job inv at lt w = record {
    bound = omega arith;
    size = inv.size;
    crew = rw length-set inv.crew;
    good =
        set_keeps (Good (p.next + 1)) p.threads i (busy p.next job)
          (λ j t e. Good-suc p.next t (inv.good j t e)) (c, omega arith, w);
    fate = λ m h. elim (ℕ_discrete m p.next) [
      | yes new ↦ running i job (rw (here, new))
      | no old ↦ move-Fate p.threads i m idle _ at (λ r e. cc) (inv.fate m (omega arith))
    ];
    seen = set_keeps (IsSeen p.rejected) p.threads i (busy p.next job) inv.seen (λ e h. cc);
    thrown = inv.thrown;
  }
    where
      here : get_elem? (set p.threads i (busy p.next job)) i ≡ some (busy p.next job)
      here = get_elem?-set_self p.threads i _ (lt-length_of_get_elem? p.threads i idle at)

  -- A job ends with a result.
  finish-Inv :
      (p : Pool S B) (i k : ℕ) (b : B)
      → Inv p
      → get_elem? p.threads i ≡ some (busy k (done b))
      → k < p.next
      → P k b
      → Inv (record p { results = set p.results k (some b); threads = set p.threads i idle })
  finish-Inv p i k b inv at lt w = record {
    bound = inv.bound;
    size = rw length-set inv.size;
    crew = rw length-set inv.crew;
    good = set_keeps (Good p.next) p.threads i idle inv.good tt;
    fate = λ m h. elim (ℕ_discrete k m) [
      | yes same ↦
          filled b
            (rw (← same)
              (get_elem?-set_self p.results k (some b) (rw inv.size (omega (arith, inv.bound)))))
            (subst (λ x. P x b) same w)
      | no other ↦ write-Fate p.results k m (some b) other (
          move-Fate p.threads i m (busy k (done b)) idle at (λ r e. absurd (other (cc)))
            (inv.fate m h))
    ];
    seen = set_keeps (IsSeen p.rejected) p.threads i idle inv.seen (λ e h. cc);
    thrown = inv.thrown;
  }

  -- A job throws.
  crash-Inv :
      (p : Pool S B) (i k : ℕ) (e : Error)
      → Inv p
      → get_elem? p.threads i ≡ some (busy k (fail e))
      → Q e
      → Inv
          (record p { threads = set p.threads i (crashed e); rejected = first_error p.rejected e })
  crash-Inv p i k e inv at q = record {
    bound = inv.bound;
    size = inv.size;
    crew = rw length-set inv.crew;
    good = set_keeps (Good p.next) p.threads i (crashed e) inv.good q;
    fate = λ m h. let (x, is) = first_error-some p.rejected e in lost x is;
    seen = λ j t h x is. first_error-some p.rejected e;
    thrown = λ x h. first_error-keeps Q p.rejected e x inv.thrown q h;
  }

  -- Every turn of every worker keeps the invariant.
  module _ (env : Env) (honest : (c : Call) (w : env.World) → H c (env.serve c w).0)
      (jobs : ℕ → Async S B) (cost : ℕ)
      (jobs-Within : (k : ℕ) → k < n → Within H (P k) Q cost (jobs k)) where
    advance-Inv :
        (i : ℕ) (t : Thread S B) (p : Pool S B) (s : S) (w : env.World)
        → get_elem? p.threads i ≡ some t
        → Good p.next t
        → Inv p
        → Inv (advance env jobs n i t (p, s, w)).0
    unfolding advance
    advance-Inv i idle p s w at g inv = elim (Bool-cases (ltb p.next n)) [
      | inl more ↦
          let lt = ltb→lt p.next n more in
          rw more (claim-Inv p i cost (jobs p.next) inv at lt (jobs-Within p.next lt))
      | inr none_left ↦ rw none_left (stop-Inv p i inv at (ltb→le p.next n none_left))
    ]
    advance-Inv i (busy k (done b)) p s w at (c, lt, h) inv = finish-Inv p i k b inv at lt h
    advance-Inv i (busy k (fail e)) p s w at (c, lt, h) inv = crash-Inv p i k e inv at h
    advance-Inv i (busy k (read f)) p s w at (zero, lt, h) inv = absurd h
    advance-Inv i (busy k (read f)) p s w at (suc c, lt, h) inv =
        step-Inv p i k c (read f) (f s) inv at lt (h s)
    advance-Inv i (busy k (write s' q)) p s w at (zero, lt, h) inv = absurd h
    advance-Inv i (busy k (write s' q)) p s w at (suc c, lt, h) inv =
        step-Inv p i k c (write s' q) q inv at lt h
    advance-Inv i (busy k (now f)) p s w at (zero, lt, h) inv = absurd h
    advance-Inv i (busy k (now f)) p s w at (suc c, lt, h) inv =
        step-Inv p i k c (now f) (f (env.clock w)) inv at lt (h (env.clock w))
    advance-Inv i (busy k (call x f)) p s w at (zero, lt, h) inv = absurd h
    advance-Inv i (busy k (call x f)) p s w at (suc c, lt, h) inv =
        let r = (env.serve x w).0 in step-Inv p i k c (call x f) (f r) inv at lt (h r (honest x w))
    advance-Inv i stopped p s w at g inv = inv
    advance-Inv i (crashed e) p s w at g inv = inv

    turn-Inv :
        (i : ℕ) (p : Pool S B) (s : S) (w : env.World) → Inv p → Inv (turn env jobs n i (p, s, w)).0
    unfolding turn
    turn-Inv i p s w inv = elim (Option-cases (get_elem? p.threads i)) [
      | inl nobody ↦ rw (nobody, turn) inv
      | inr (t, at) ↦ rw (at, turn) (advance-Inv i t p s w at (inv.good i t at) inv)
    ]

    run_schedule-Inv :
        (is : List ℕ) (p : Pool S B) (s : S) (w : env.World)
        → Inv p
        → Inv (run_schedule env jobs n is (p, s, w)).0
    unfolding run_schedule
    run_schedule-Inv [] p s w inv = inv
    run_schedule-Inv (i ∷ is) p s w inv =
        let (p', s', w') = turn env jobs n i (p, s, w) in
        run_schedule-Inv is p' s' w' (turn-Inv i p s w inv)

    start-Inv : (s : S) (w : env.World) → Inv (start_pool env jobs n limit s w).0
    unfolding start_pool
    start-Inv s w = record {
      bound = omega arith;
      size = length-replicate n none;
      crew = length-replicate limit idle;
      good = λ i t e.
          let is : t ≡ idle = get_elem?-replicate limit i idle t e in subst (Good 0) (sym is) tt;
      fate = λ k h. absurd (omega arith);
      seen = λ i t e x h. let is : t ≡ idle = get_elem?-replicate limit i idle t e in cc;
      thrown = λ e h. cc;
    }

    pub pool-Inv :
        (schedule : List ℕ) (s : S) (w : env.World)
        → Inv (run_schedule env jobs n schedule (start_pool env jobs n limit s w)).0
    pool-Inv schedule s w =
        let (p, s', w') = start_pool env jobs n limit s w in
        run_schedule-Inv schedule p s' w' (start-Inv s w)
