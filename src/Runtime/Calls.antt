-- ===== src/Runtime/Calls.antt =====
-- Which calls an `async` function makes, whatever the answers are, and what of the world such calls
-- keep.
use feedo.Runtime.Wire.{Call, Reply, Error}
use feedo.Runtime.Async.{Async, done, fail, read, write, now, call, ◌>>=◌, try_catch, Env, run}
use feedo.Base.{ℕ}

module _ (C : Call → Type 0) {S : Type 0} where
  -- Every call is one of `C`.
  abbrev pub Calls : {A : Type 0} → Async S A → Type 0
  Calls (done a) = Unit
  Calls (fail e) = Unit
  Calls (read f) = (s : S) → Calls (f s)
  Calls (write s p) = Calls p
  Calls (now f) = (t : ℕ) → Calls (f t)
  Calls (call c f) = C c × ((r : Reply) → Calls (f r))

  pub Calls-bind :
      {A B : Type 0} (p : Async S A) (k : A → Async S B)
      → Calls p
      → ((a : A) → Calls (k a))
      → Calls (p >>= k)
  Calls-bind (done a) k h next = next a
  Calls-bind (fail e) k h next = tt
  Calls-bind (read f) k h next = λ s. Calls-bind (f s) k (h s) next
  Calls-bind (write s p) k h next = Calls-bind p k h next
  Calls-bind (now f) k h next = λ t. Calls-bind (f t) k (h t) next
  Calls-bind (call c f) k (made, h) next = (made, λ r. Calls-bind (f r) k (h r) next)

  pub Calls-try_catch :
      {A : Type 0} (p : Async S A) (handler : Error → Async S A)
      → Calls p
      → ((e : Error) → Calls (handler e))
      → Calls (try_catch p handler)
  Calls-try_catch (done a) k h next = tt
  Calls-try_catch (fail e) k h next = next e
  Calls-try_catch (read f) k h next = λ s. Calls-try_catch (f s) k (h s) next
  Calls-try_catch (write s p) k h next = Calls-try_catch p k h next
  Calls-try_catch (now f) k h next = λ t. Calls-try_catch (f t) k (h t) next
  Calls-try_catch (call c f) k (made, h) next = (made, λ r. Calls-try_catch (f r) k (h r) next)

  -- What such calls keep of the world, a run keeps.
  pub run-Calls :
      (env : Env) (I : env.World → Type 0)
      → ((c : Call) (w : env.World) → C c → I w → I (env.serve c w).1)
      → {A : Type 0} (p : Async S A) (s : S) (w : env.World) → Calls p
      → I w
      → I (run env p s w).2
  unfolding run
  run-Calls env I kept (done a) s w h i = i
  run-Calls env I kept (fail e) s w h i = i
  run-Calls env I kept (read f) s w h i = run-Calls env I kept (f s) s w (h s) i
  run-Calls env I kept (write x p) s w h i = run-Calls env I kept p x w h i
  run-Calls env I kept (now f) s w h i =
      run-Calls env I kept (f (env.clock w)) s w (h (env.clock w)) i
  run-Calls env I kept (call c f) s w (made, h) i =
      run-Calls env I kept (f (env.serve c w).0) s (env.serve c w).1 (h (env.serve c w).0)
        (kept c w made i)
