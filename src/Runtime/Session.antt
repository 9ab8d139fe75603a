-- ===== src/Runtime/Session.antt =====
-- A method of the SDK from its call to its result: single tasks and pools, one after the other, on
-- the shared object and the world.
use feedo.Base.{◌≡◌, ap}
use feedo.Runtime.Wire.{Error}
use feedo.Runtime.Async.{Env, Outcome, ok, err, pending}
use feedo.Runtime.Bounds.{Ends}

module _ (env : Env) (S : Type 0) where
  abbrev pub Session : Type 0 → Type 0
  Session A = S → env.World → Outcome A × S × env.World

  -- The rest of a method after an `await`. A promise that does not settle stops it.
  abbrev pub and_then : {A B : Type 0} → Session A → (A → Session B) → Session B
  and_then m k s w =
      let (o, s', w') = m s w in
      elim o [ ok a ↦ k a s' w' | err e ↦ (err e, s', w') | pending ↦ (pending, s', w') ]

  abbrev pub give : {A : Type 0} → A → Session A
  give a s w = (ok a, s, w)

  abbrev pub throw : {A : Type 0} → Error → Session A
  throw e s w = (err e, s, w)

  -- `try { m } catch (e) { … }`
  abbrev pub attempt : {A : Type 0} → Session A → (Error → Session A) → Session A
  attempt m handler s w =
      let (o, s', w') = m s w in
      elim o [ ok a ↦ (ok a, s', w') | err e ↦ handler e s' w' | pending ↦ (pending, s', w') ]

  module _ {A : Type 0} (P : A → Type 0) (R : Type 0) where
    pub and_then-Ends :
        {B : Type 0} (P' : B → Type 0) (Q : Error → Type 0) (m : Session A) (k : A → Session B)
        (s : S) (w : env.World)
        → Ends P Q R (m s w).0
        → ((a : A) (s' : S) (w' : env.World) → P a → Ends P' Q R (k a s' w').0)
        → Ends P' Q R (and_then m k s w).0
    and_then-Ends P' Q m k s w h next = go (m s w) h
      where
        go :
            (r : Outcome A × S × env.World)
            → Ends P Q R r.0
            → Ends P' Q R (and_then (λ _ _. r) k s w).0
        go (ok a, s', w') h = next a s' w' h
        go (err e, s', w') h = h
        go (pending, s', w') h = h

    pub attempt-Ends :
        (E Q : Error → Type 0) (m : Session A) (handler : Error → Session A) (s : S) (w : env.World)
        → Ends P E R (m s w).0
        → ((e : Error) (s' : S) (w' : env.World) → E e → Ends P Q R (handler e s' w').0)
        → Ends P Q R (attempt m handler s w).0
    attempt-Ends E Q m handler s w h next = go (m s w) h
      where
        go :
            (r : Outcome A × S × env.World)
            → Ends P E R r.0
            → Ends P Q R (attempt (λ _ _. r) handler s w).0
        go (ok a, s', w') h = h
        go (err e, s', w') h = next e s' w' h
        go (pending, s', w') h = h

  module _ {A B : Type 0} (m : Session A) (k : A → Session B) (s : S) (w : env.World) where
    -- How a call that has ended goes on.
    pub and_then_of_ok :
        {a : A} {s' : S} {w' : env.World} → m s w ≡ (ok a, s', w') → and_then m k s w ≡ k a s' w'
    and_then_of_ok e = ap (λ r. and_then (λ _ _. r) k s w) e

    pub and_then_of_err :
        {x : Error} {s' : S} {w' : env.World}
        → m s w ≡ (err x, s', w')
        → and_then m k s w ≡ (err x, s', w')
    and_then_of_err e = ap (λ r. and_then (λ _ _. r) k s w) e

  pub attempt_of_err :
      {A : Type 0} (m : Session A) (handler : Error → Session A) (s : S) (w : env.World) {x : Error}
      {s' : S} {w' : env.World}
      → m s w ≡ (err x, s', w')
      → attempt m handler s w ≡ handler x s' w'
  attempt_of_err m handler s w e = ap (λ r. attempt (λ _ _. r) handler s w) e

  -- What both calls keep of the world, the two together keep.
  pub and_then-keeps :
      {A B : Type 0} (I : env.World → Type 0) (m : Session A) (k : A → Session B) (s : S)
      (w : env.World)
      → I (m s w).2
      → ((a : A) (s' : S) (w' : env.World) → I w' → I (k a s' w').2)
      → I (and_then m k s w).2
  and_then-keeps {A} I m k s w kept next = go (m s w) kept
    where
      go : (r : Outcome A × S × env.World) → I r.2 → I (and_then (λ _ _. r) k s w).2
      go (ok a, s', w') i = next a s' w' i
      go (err e, s', w') i = i
      go (pending, s', w') i = i
