-- ===== src/Runtime/Running.antt =====
-- How a task that is run alone goes on after each part.
use feedo.Base.{◌≡◌, refl}
use feedo.Runtime.Wire.{Error}
use feedo.Runtime.Async.{
  Async, done, fail, read, write, now, call, ◌>>=◌, try_catch, Env, Outcome, ok, err, pending, run,
}

module _ (env : Env) {S : Type 0} where
  abbrev pub continue_with :
      {A B : Type 0} → (A → Async S B) → Outcome A × S × env.World → Outcome B × S × env.World
  continue_with k (ok a, s, w) = run env (k a) s w
  continue_with k (err e, s, w) = (err e, s, w)
  continue_with k (pending, s, w) = (pending, s, w)

  abbrev pub recover_with :
      {A : Type 0} → (Error → Async S A) → Outcome A × S × env.World → Outcome A × S × env.World
  recover_with h (ok a, s, w) = (ok a, s, w)
  recover_with h (err e, s, w) = run env (h e) s w
  recover_with h (pending, s, w) = (pending, s, w)

  pub run-bind :
      {A B : Type 0} (p : Async S A) (k : A → Async S B) (s : S) (w : env.World)
      → run env (p >>= k) s w ≡ continue_with k (run env p s w)
  unfolding run
  run-bind (done a) k s w = refl
  run-bind (fail e) k s w = refl
  run-bind (read f) k s w = run-bind (f s) k s w
  run-bind (write x p) k s w = run-bind p k x w
  run-bind (now f) k s w = run-bind (f (env.clock w)) k s w
  run-bind (call c f) k s w = let (r, w') = env.serve c w in run-bind (f r) k s w'

  pub run-try_catch :
      {A : Type 0} (p : Async S A) (h : Error → Async S A) (s : S) (w : env.World)
      → run env (try_catch p h) s w ≡ recover_with h (run env p s w)
  unfolding run
  run-try_catch (done a) h s w = refl
  run-try_catch (fail e) h s w = refl
  run-try_catch (read f) h s w = run-try_catch (f s) h s w
  run-try_catch (write x p) h s w = run-try_catch p h x w
  run-try_catch (now f) h s w = run-try_catch (f (env.clock w)) h s w
  run-try_catch (call c f) h s w = let (r, w') = env.serve c w in run-try_catch (f r) h s w'
