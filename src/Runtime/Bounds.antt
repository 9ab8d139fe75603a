-- ===== src/Runtime/Bounds.antt =====
-- What every run of an `async` function does, whatever the object, the clock and the other tasks
-- are at each of its actions, as long as the network keeps to its contract.
use feedo.Base.{ℕ, zero, suc, ◌+◌, ◌≡◌, arith}
use feedo.Runtime.Wire.{Call, Reply, Error}
use feedo.Runtime.Async.{
  Async, done, fail, read, write, now, call, ◌>>=◌, try_catch, Env, Outcome, ok, err, pending, run,
}

-- What the network may answer to a call.
abbrev pub Contract : Type 1
Contract = Call → Reply → Type 0

-- At most `n` actions, under the contract `H`, and then a result with `P` or an error with `Q`.
abbrev pub Within :
    {S A : Type 0} → Contract → (A → Type 0) → (Error → Type 0) → ℕ → Async S A → Type 0
Within H P Q n (done a) = P a
Within H P Q n (fail e) = Q e
Within H P Q zero (read f) = ⊥
Within {S} H P Q (suc n) (read f) = (s : S) → Within H P Q n (f s)
Within H P Q zero (write s p) = ⊥
Within H P Q (suc n) (write s p) = Within H P Q n p
Within H P Q zero (now f) = ⊥
Within H P Q (suc n) (now f) = (t : ℕ) → Within H P Q n (f t)
Within H P Q zero (call c f) = ⊥
Within H P Q (suc n) (call c f) = (r : Reply) → H c r → Within H P Q n (f r)

module _ {S : Type 0} (H : Contract) where
  pub Within-add_right :
      {A : Type 0} (P : A → Type 0) (Q : Error → Type 0) (n k : ℕ) (p : Async S A)
      → Within H P Q n p
      → Within H P Q (n + k) p
  Within-add_right P Q n k (done a) h = h
  Within-add_right P Q n k (fail e) h = h
  Within-add_right P Q zero k (read f) h = absurd h
  Within-add_right P Q (suc n) k (read f) h =
      let e : suc n + k ≡ suc (n + k) = omega arith in
      rw e (λ s. Within-add_right P Q n k (f s) (h s))
  Within-add_right P Q zero k (write s p) h = absurd h
  Within-add_right P Q (suc n) k (write s p) h =
      let e : suc n + k ≡ suc (n + k) = omega arith in rw e (Within-add_right P Q n k p h)
  Within-add_right P Q zero k (now f) h = absurd h
  Within-add_right P Q (suc n) k (now f) h =
      let e : suc n + k ≡ suc (n + k) = omega arith in
      rw e (λ t. Within-add_right P Q n k (f t) (h t))
  Within-add_right P Q zero k (call c f) h = absurd h
  Within-add_right P Q (suc n) k (call c f) h =
      let e : suc n + k ≡ suc (n + k) = omega arith in
      rw e (λ r honest. Within-add_right P Q n k (f r) (h r honest))

  pub Within-bind :
      {A B : Type 0} (P : A → Type 0) (R : B → Type 0) (Q : Error → Type 0) (n k : ℕ)
      (p : Async S A) (f : A → Async S B)
      → Within H P Q n p
      → ((a : A) → P a → Within H R Q k (f a))
      → Within H R Q (n + k) (p >>= f)
  Within-bind P R Q n k (done a) f h g =
      let e : n + k ≡ k + n = omega arith in rw e (Within-add_right R Q k n (f a) (g a h))
  Within-bind P R Q n k (fail e) f h g = h
  Within-bind P R Q zero k (read q) f h g = absurd h
  Within-bind P R Q (suc n) k (read q) f h g =
      let e : suc n + k ≡ suc (n + k) = omega arith in
      rw e (λ s. Within-bind P R Q n k (q s) f (h s) g)
  Within-bind P R Q zero k (write s q) f h g = absurd h
  Within-bind P R Q (suc n) k (write s q) f h g =
      let e : suc n + k ≡ suc (n + k) = omega arith in rw e (Within-bind P R Q n k q f h g)
  Within-bind P R Q zero k (now q) f h g = absurd h
  Within-bind P R Q (suc n) k (now q) f h g =
      let e : suc n + k ≡ suc (n + k) = omega arith in
      rw e (λ t. Within-bind P R Q n k (q t) f (h t) g)
  Within-bind P R Q zero k (call c q) f h g = absurd h
  Within-bind P R Q (suc n) k (call c q) f h g =
      let e : suc n + k ≡ suc (n + k) = omega arith in
      rw e (λ r honest. Within-bind P R Q n k (q r) f (h r honest) g)

  pub Within-try_catch :
      {A : Type 0} (P : A → Type 0) (E Q : Error → Type 0) (n k : ℕ) (p : Async S A)
      (handler : Error → Async S A)
      → Within H P E n p
      → ((e : Error) → E e → Within H P Q k (handler e))
      → Within H P Q (n + k) (try_catch p handler)
  Within-try_catch P E Q n k (done a) c h g = h
  Within-try_catch P E Q n k (fail x) c h g =
      let e : n + k ≡ k + n = omega arith in rw e (Within-add_right P Q k n (c x) (g x h))
  Within-try_catch P E Q zero k (read q) c h g = absurd h
  Within-try_catch P E Q (suc n) k (read q) c h g =
      let e : suc n + k ≡ suc (n + k) = omega arith in
      rw e (λ s. Within-try_catch P E Q n k (q s) c (h s) g)
  Within-try_catch P E Q zero k (write s q) c h g = absurd h
  Within-try_catch P E Q (suc n) k (write s q) c h g =
      let e : suc n + k ≡ suc (n + k) = omega arith in rw e (Within-try_catch P E Q n k q c h g)
  Within-try_catch P E Q zero k (now q) c h g = absurd h
  Within-try_catch P E Q (suc n) k (now q) c h g =
      let e : suc n + k ≡ suc (n + k) = omega arith in
      rw e (λ t. Within-try_catch P E Q n k (q t) c (h t) g)
  Within-try_catch P E Q zero k (call d q) c h g = absurd h
  Within-try_catch P E Q (suc n) k (call d q) c h g =
      let e : suc n + k ≡ suc (n + k) = omega arith in
      rw e (λ r honest. Within-try_catch P E Q n k (q r) c (h r honest) g)

-- What each way to end says; `R` of a promise that has not settled.
abbrev pub Ends : {A : Type 0} → (A → Type 0) → (Error → Type 0) → Type 0 → Outcome A → Type 0
Ends P Q R (ok a) = P a
Ends P Q R (err e) = Q e
Ends P Q R pending = R

module _ (H : Contract) (env : Env) (honest : (c : Call) (w : env.World) → H c (env.serve c w).0)
    {S A : Type 0} (P : A → Type 0) (Q : Error → Type 0) (R : Type 0) where
  -- A task that is run alone ends, as its bound says.
  pub run-Ends :
      (n : ℕ) (p : Async S A) (s : S) (w : env.World)
      → Within H P Q n p
      → Ends P Q R (run env p s w).0
  unfolding run
  run-Ends n (done a) s w h = h
  run-Ends n (fail e) s w h = h
  run-Ends zero (read f) s w h = absurd h
  run-Ends (suc n) (read f) s w h = run-Ends n (f s) s w (h s)
  run-Ends zero (write x p) s w h = absurd h
  run-Ends (suc n) (write x p) s w h = run-Ends n p x w h
  run-Ends zero (now f) s w h = absurd h
  run-Ends (suc n) (now f) s w h = run-Ends n (f (env.clock w)) s w (h (env.clock w))
  run-Ends zero (call c f) s w h = absurd h
  run-Ends (suc n) (call c f) s w h =
      let (r, w') = env.serve c w in run-Ends n (f r) s w' (h r (honest c w))
