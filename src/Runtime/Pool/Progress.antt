-- ===== src/Runtime/Pool/Progress.antt =====
-- The measure of what a pool has left to do, which every turn of a worker at work lowers.
use feedo.Base.{
  ℕ, zero, suc, ◌+◌, ◌-◌, ◌*◌, ◌≤◌, ◌<◌, ◌≡◌, refl, inl, inr, List, [], ◌∷◌, none, some, Bool, true,
  false, get_elem?, set, subst, arith, ltb, ltb→lt, Bool-cases, Option-cases,
}
use feedo.Runtime.Wire.{Call, Reply, Error}
use feedo.Runtime.Async.{Async, done, fail, read, write, now, call, Env}
use feedo.Runtime.Bounds.{Contract, Within}
use feedo.Runtime.Pool.{Thread, idle, busy, stopped, crashed, Pool, advance, turn}

module _ {S B : Type 0} where
  unfoldable pub is_live : Thread S B → Bool
  is_live idle = true
  is_live (busy k p) = true
  is_live stopped = false
  is_live (crashed e) = false

  -- Whether worker `i` still has something to do.
  unfoldable pub live_at : ℕ → List (Thread S B) → Bool
  unfolding is_live
  live_at i ts = elim (get_elem? ts i) [ none ↦ false | some t ↦ is_live t ]

  -- A turn of a worker that has ended changes nothing.
  pub turn_of_not_live :
      (n : ℕ) (env : Env) (jobs : ℕ → Async S B) (i : ℕ) (p : Pool S B) (s : S) (w : env.World)
      → live_at i p.threads ≡ false
      → turn env jobs n i (p, s, w) ≡ (p, s, w)
  unfolding turn advance live_at is_live
  turn_of_not_live n env jobs i p s w dead = elim (Option-cases (get_elem? p.threads i)) [
    | inl nobody ↦ rw (nobody, turn)
    | inr (t, at) ↦ rw (at, turn) (still t (rw (at, live_at) at dead))
  ]
    where
      still : (t : Thread S B) → is_live t ≡ false → advance env jobs n i t (p, s, w) ≡ (p, s, w)
      still idle h = cc
      still (busy k q) h = cc
      still stopped h = refl
      still (crashed e) h = refl

module _ (H : Contract) {S B : Type 0} (P : ℕ → B → Type 0) (Q : Error → Type 0) where
  -- How many turns a worker can take before it claims another index or ends.
  abbrev pub Cost : Thread S B → ℕ → Type 0
  Cost idle c = 1 ≤ c
  Cost (busy k p) c = (d : ℕ) × Within H (P k) Q d p × (d + 2 ≤ c)
  Cost stopped c = Unit
  Cost (crashed e) c = Unit

  abbrev pub Budget : List (Thread S B) → ℕ → Type 0
  Budget [] m = Unit
  Budget (t ∷ ts) m = (c : ℕ) × (r : ℕ) × Cost t c × Budget ts r × (c + r ≤ m)

  abbrev IsLive : Thread S B → Type 0
  IsLive idle = Unit
  IsLive (busy k p) = Unit
  IsLive stopped = ⊥
  IsLive (crashed e) = ⊥

  pub Budget-le : (ts : List (Thread S B)) (m m' : ℕ) → m ≤ m' → Budget ts m → Budget ts m'
  Budget-le [] m m' h b = tt
  Budget-le (t ∷ ts) m m' h (c, r, x, y, z) = (c, r, x, y, omega arith)

  -- A worker whose cost falls by one and rises by `up`.
  set-Budget :
      (ts : List (Thread S B)) (i m up : ℕ) (t t' : Thread S B)
      → get_elem? ts i ≡ some t
      → ((c : ℕ) → Cost t c → (c' : ℕ) × Cost t' c' × (c' + 1 ≤ c + up))
      → Budget ts m
      → Budget (set ts i t') (m + up - 1) × (1 ≤ m + up)
  set-Budget [] i m up t t' at fall b = cc
  set-Budget (x ∷ ts) zero m up t t' at fall (c, r, p, q, z) =
      let is : x ≡ t = cc in
      let (c', p', lt) = fall c (subst (λ y. Cost y c) is p) in
      ((c', r, p', q, omega arith), omega arith)
  set-Budget (x ∷ ts) (suc i) m up t t' at fall (c, r, p, q, z) =
      let (b, pos) = set-Budget ts i r up t t' at fall q in
      ((c, r + up - 1, p, b, omega arith), omega arith)

  -- The cost of a worker falls with each action of its job.
  Falls : ℕ → Async S B → Async S B → Type 0
  Falls k q q' = (d : ℕ) → Within H (P k) Q d q → (d' : ℕ) × Within H (P k) Q d' q' × (d' + 1 ≤ d)

  read-Falls : (k : ℕ) (f : S → Async S B) (s : S) → Falls k (read f) (f s)
  unfolding Falls
  read-Falls k f s zero h = absurd h
  read-Falls k f s (suc d) h = (d, h s, omega arith)

  write-Falls : (k : ℕ) (s : S) (q : Async S B) → Falls k (write s q) q
  unfolding Falls
  write-Falls k s q zero h = absurd h
  write-Falls k s q (suc d) h = (d, h, omega arith)

  now-Falls : (k : ℕ) (f : ℕ → Async S B) (t : ℕ) → Falls k (now f) (f t)
  unfolding Falls
  now-Falls k f t zero h = absurd h
  now-Falls k f t (suc d) h = (d, h t, omega arith)

  call-Falls :
      (k : ℕ) (c : Call) (f : Reply → Async S B) (r : Reply) → H c r → Falls k (call c f) (f r)
  unfolding Falls
  call-Falls k c f r honest zero h = absurd h
  call-Falls k c f r honest (suc d) h = (d, h r honest, omega arith)

  Cost-busy :
      (k : ℕ) (q q' : Async S B)
      → Falls k q q'
      → (c : ℕ) → Cost (busy k q) c
      → (c' : ℕ) × Cost (busy k q') c' × (c' + 1 ≤ c)
  unfolding Falls
  Cost-busy k q q' falls c (d, h, le) =
      let (d', h', lt) = falls d h in (d' + 2, (d', h', omega arith), omega arith)

  module _ (n : ℕ) (env : Env) (honest : (c : Call) (w : env.World) → H c (env.serve c w).0)
      (jobs : ℕ → Async S B) (cost : ℕ)
      (jobs-Within : (k : ℕ) → k < n → Within H (P k) Q cost (jobs k)) where
    -- At most `m` turns of live workers are left.
    abbrev pub Left : Pool S B → ℕ → Type 0
    Left p m = (r : ℕ) × Budget p.threads r × ((n - p.next) * (cost + 3) + r ≤ m)

    same_next :
        (p : Pool S B) (i m : ℕ) (t t' : Thread S B)
        → get_elem? p.threads i ≡ some t
        → ((c : ℕ) → Cost t c → (c' : ℕ) × Cost t' c' × (c' + 1 ≤ c))
        → Left p m
        → (r : ℕ) × Budget (set p.threads i t') r
          × ((n - p.next) * (cost + 3) + r ≤ m - 1)
          × (1 ≤ m)
    same_next p i m t t' at fall (r, b, h) =
        let (b', pos) =
          set-Budget p.threads i r 0 t t' at
            (λ c x. let (c', y, z) = fall c x in (c', y, omega arith)) b in
        (r + 0 - 1, b', omega arith, omega arith)

    next_claimed :
        (p : Pool S B) (i m : ℕ)
        → get_elem? p.threads i ≡ some idle
        → p.next < n
        → Left p m
        → (r : ℕ) × Budget (set p.threads i (busy p.next (jobs p.next))) r
          × ((n - (p.next + 1)) * (cost + 3) + r ≤ m - 1)
          × (1 ≤ m)
    next_claimed p i m at lt (r, b, h) =
        let (b', pos) =
          set-Budget p.threads i r (cost + 3) idle (busy p.next (jobs p.next)) at
            (λ c x. (cost + 2, (cost, jobs-Within p.next lt, omega arith), omega arith)) b in
        let e : n - p.next ≡ suc (n - (p.next + 1)) = omega arith in
        let h' : suc (n - (p.next + 1)) * (cost + 3) + r ≤ m = rw e at h in
        (r + (cost + 3) - 1, b', omega arith, omega arith)

    advance-Left :
        (i m : ℕ) (t : Thread S B) (p : Pool S B) (s : S) (w : env.World)
        → get_elem? p.threads i ≡ some t
        → IsLive t
        → Left p m
        → Left (advance env jobs n i t (p, s, w)).0 (m - 1) × (1 ≤ m)
    unfolding advance
    advance-Left i m idle p s w at live left = elim (Bool-cases (ltb p.next n)) [
      | inl more ↦
          let (r, b, h, pos) = next_claimed p i m at (ltb→lt p.next n more) left in
          rw more ((r, b, h), pos)
      | inr none_left ↦
          let (r, b, h, pos) = same_next p i m idle stopped at (λ c x. (0, tt, x)) left in
          rw none_left ((r, b, h), pos)
    ]
    advance-Left i m (busy k (done b)) p s w at live left =
        let (r, b', h, pos) =
          same_next p i m (busy k (done b)) idle at (λ c x. (1, omega arith, omega (arith, x.2)))
            left in
        ((r, b', h), pos)
    advance-Left i m (busy k (fail e)) p s w at live left =
        let (r, b', h, pos) =
          same_next p i m (busy k (fail e)) (crashed e) at (λ c x. (0, tt, omega (arith, x.2)))
            left in
        ((r, b', h), pos)
    advance-Left i m (busy k (read f)) p s w at live left =
        let (r, b', h, pos) =
          same_next p i m (busy k (read f)) (busy k (f s)) at
            (Cost-busy k (read f) (f s) (read-Falls k f s)) left in
        ((r, b', h), pos)
    advance-Left i m (busy k (write s' q)) p s w at live left =
        let (r, b', h, pos) =
          same_next p i m (busy k (write s' q)) (busy k q) at
            (Cost-busy k (write s' q) q (write-Falls k s' q)) left in
        ((r, b', h), pos)
    advance-Left i m (busy k (now f)) p s w at live left =
        let t = env.clock w in
        let (r, b', h, pos) =
          same_next p i m (busy k (now f)) (busy k (f t)) at
            (Cost-busy k (now f) (f t) (now-Falls k f t)) left in
        ((r, b', h), pos)
    advance-Left i m (busy k (call c f)) p s w at live left =
        let x = (env.serve c w).0 in
        let (r, b', h, pos) =
          same_next p i m (busy k (call c f)) (busy k (f x)) at
            (Cost-busy k (call c f) (f x) (call-Falls k c f x (honest c w))) left in
        ((r, b', h), pos)
    advance-Left i m stopped p s w at live left = absurd live
    advance-Left i m (crashed e) p s w at live left = absurd live

    pub turn-Left :
        (i m : ℕ) (p : Pool S B) (s : S) (w : env.World)
        → live_at i p.threads ≡ true
        → Left p m
        → Left (turn env jobs n i (p, s, w)).0 (m - 1) × (1 ≤ m)
    unfolding turn live_at is_live
    turn-Left i m p s w live left = elim (Option-cases (get_elem? p.threads i)) [
      | inl nobody ↦ cc
      | inr (t, at) ↦
          rw (at, turn) (advance-Left i m t p s w at (awake t (rw (at, live_at) at live)) left)
    ]
      where
        awake : (t : Thread S B) → is_live t ≡ true → IsLive t
        awake idle h = tt
        awake (busy k q) h = tt
        awake stopped h = cc
        awake (crashed e) h = cc
