-- ===== src/Runtime/Async.antt =====
-- An `async` function as a tree of atomic actions over an object of type `S`: it reads or writes
-- the object, reads the clock, or awaits a call. Between two actions other tasks may run, which
-- allows every interleaving of JavaScript's event loop, and more.
use feedo.Base.{ℕ}
use feedo.Runtime.Wire.{Call, Reply, Error}

pub data Async (S A : Type 0) : Type 0 where
  done : A → Async S A
  fail : Error → Async S A
  read : (S → Async S A) → Async S A
  write : S → Async S A → Async S A
  now : (ℕ → Async S A) → Async S A
  call : Call → (Reply → Async S A) → Async S A

infixl 5 ◌>>=◌ ◌>>◌
abbrev pub ◌>>=◌ : {S A B : Type 0} → Async S A → (A → Async S B) → Async S B
done a >>= k = k a
fail e >>= k = fail e
read f >>= k = read (λ s. f s >>= k)
write s p >>= k = write s (p >>= k)
now f >>= k = now (λ t. f t >>= k)
call c f >>= k = call c (λ r. f r >>= k)

abbrev pub ◌>>◌ : {S A B : Type 0} → Async S A → Async S B → Async S B
p >> q = p >>= λ _. q

-- `try { p } catch (e) { h e }`
abbrev pub try_catch : {S A : Type 0} → Async S A → (Error → Async S A) → Async S A
try_catch (done a) h = done a
try_catch (fail e) h = h e
try_catch (read f) h = read (λ s. try_catch (f s) h)
try_catch (write s p) h = write s (try_catch p h)
try_catch (now f) h = now (λ t. try_catch (f t) h)
try_catch (call c f) h = call c (λ r. try_catch (f r) h)

-- The network and the clock, which the program does not implement.
pub record Env : Type 1 where
  pub World : Type 0
  pub serve : Call → World → Reply × World
  pub clock : World → ℕ

pub data Outcome (A : Type 0) : Type 0 where
  ok : A → Outcome A
  err : Error → Outcome A
  -- the promise has not settled
  pending : Outcome A

module _ (env : Env) where
  -- One task alone, to its end.
  unfoldable pub run : {S A : Type 0} → Async S A → S → env.World → Outcome A × S × env.World
  run (done a) s w = (ok a, s, w)
  run (fail e) s w = (err e, s, w)
  run (read f) s w = run (f s) s w
  run (write s' p) s w = run p s' w
  run (now f) s w = run (f (env.clock w)) s w
  run (call c f) s w = run (f (env.serve c w).0) s (env.serve c w).1
