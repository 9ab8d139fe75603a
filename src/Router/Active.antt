-- ===== src/Router/Active.antt =====
-- Which node is chosen, and how long it stays the active one.
use feedo.Base.{
  ℕ, ◌≡◌, refl, sym, ◌∙◌, ap, String, List, [], ◌∷◌, ◌++◌, Option, none, some, Bool, true, false,
  inl, inr, get_elem?, truthy, All, Option-cases,
}
use feedo.Runtime.Wire.{Reply, settled, race}
use feedo.Runtime.Async.{done, read, write, try_catch, Env, Outcome, ok, err, pending, run}
use feedo.Runtime.Running.{continue_with, run-bind}
use feedo.Router.State.{NodeType, search, consensus, storage, NodeRouter, active_of, set_active}
use feedo.Router.Discover.{Action, get_nodes_from_router}
use feedo.Router.Select.{
  promise_any, await_any, first_node, ping_urls, ping_all, find_fastest_node, chosen, select,
  or_fallbacks, get_node,
}

-- A request that has ended in failure.
abbrev pub Failed : ℕ × Bool → Type 0
Failed e = e.1 ≡ false

promise_any-first :
    (nodes : List String) (fails rest : List (ℕ × Bool)) (k : ℕ) (node : String)
    → All Failed fails
    → get_elem? nodes k ≡ some node
    → promise_any nodes (fails ++ (k, true) ∷ rest) ≡ some node
unfolding promise_any
promise_any-first nodes [] rest k node h at = rw (at, promise_any)
promise_any-first nodes ((j, false) ∷ fails) rest k node h at =
    promise_any-first nodes fails rest k node h.1 at
promise_any-first nodes ((j, true) ∷ fails) rest k node h at = let bad = h.0 in cc

promise_any-none :
    (nodes : List String) (ends : List (ℕ × Bool)) → All Failed ends → promise_any nodes ends ≡ none
unfolding promise_any
promise_any-none nodes [] h = refl
promise_any-none nodes ((j, false) ∷ ends) h = promise_any-none nodes ends h.1
promise_any-none nodes ((j, true) ∷ ends) h = let bad = h.0 in cc

active_of-set_active :
    (t : NodeType) (n : Option String) (r : NodeRouter) → active_of t (set_active t n r) ≡ n
active_of-set_active search n r = refl
active_of-set_active consensus n r = refl
active_of-set_active storage n r = refl

module _ (env : Env) where
  -- How a round of pings goes on once the requests have ended.
  abbrev pinged :
      List String → NodeRouter → Reply × env.World → Outcome String × NodeRouter × env.World
  pinged nodes r (reply, w) =
      run env (try_catch (await_any nodes reply) (λ _. done (first_node nodes))) r w

  ping_all-fastest :
      (t : NodeType) (nodes : List String) (fails rest : List (ℕ × Bool)) (k : ℕ) (node : String)
      (r : NodeRouter) (w w' : env.World)
      → env.serve (race (ping_urls t nodes)) w ≡ (settled (fails ++ (k, true) ∷ rest), w')
      → All Failed fails
      → get_elem? nodes k ≡ some node
      → run env (ping_all t nodes) r w ≡ (ok node, r, w')
  unfolding ping_all await_any run
  ping_all-fastest t nodes fails rest k node r w w' served h at =
      ap (pinged nodes r) served
      ∙ rw (promise_any-first nodes fails rest k node h at, await_any) refl

  ping_all-none_up :
      (t : NodeType) (nodes : List String) (ends : List (ℕ × Bool)) (r : NodeRouter)
      (w w' : env.World)
      → env.serve (race (ping_urls t nodes)) w ≡ (settled ends, w')
      → All Failed ends
      → run env (ping_all t nodes) r w ≡ (ok (first_node nodes), r, w')
  unfolding ping_all await_any run
  ping_all-none_up t nodes ends r w w' served h =
      ap (pinged nodes r) served ∙ rw (promise_any-none nodes ends h, await_any) refl

  get_node_of_set :
      (t : NodeType) (r : NodeRouter) (w : env.World) (node : String)
      → chosen (active_of t r) ≡ some node
      → run env (get_node t) r w ≡ (ok node, r, w)
  unfolding get_node run
  get_node_of_set t r w node is = rw (is, run)

  get_node_of_unset :
      (t : NodeType) (r : NodeRouter) (w : env.World)
      → chosen (active_of t r) ≡ none
      → run env (get_node t) r w ≡ run env (select t) r w
  unfolding get_node run
  get_node_of_unset t r w unset = rw (unset, run)

  -- What `get…Node` keeps of the node that is found.
  abbrev keep : NodeType → String → Action String
  keep t found = read (λ s. write (set_active t (some found) s) (done found))

  get_node_of_pinged :
      (t : NodeType) (found : List String) (node : String) (r r' : NodeRouter)
      (w w' w'' : env.World)
      → chosen (active_of t r) ≡ none
      → run env (get_nodes_from_router t) r w ≡ (ok found, r', w')
      → run env (ping_all t (or_fallbacks t found)) r' w' ≡ (ok node, r', w'')
      → run env (get_node t) r w ≡ (ok node, set_active t (some node) r', w'')
  unfolding find_fastest_node
  get_node_of_pinged t found node r r' w w' w'' unset listed pinged =
      unfold run in
      get_node_of_unset t r w unset
      ∙ run-bind env (find_fastest_node t) (keep t) r w
      ∙ ap (continue_with env (keep t)) (
          run-bind env (get_nodes_from_router t) (λ ns. ping_all t (or_fallbacks t ns)) r w
          ∙ ap (continue_with env (λ ns. ping_all t (or_fallbacks t ns))) listed
          ∙ pinged)

  -- If no node of a type is active, `getNodesFromRouter` returns a list of nodes, and of the pings
  -- of that list, or of the fallbacks if it is empty, some fail and then one succeeds, then the
  -- getter of the type returns the node whose ping that was, and leaves the router as
  -- `getNodesFromRouter` left it, with that node as the active one.
  pub get_node-fastest :
      (t : NodeType) (found : List String) (fails rest : List (ℕ × Bool)) (k : ℕ) (node : String)
      (r r' : NodeRouter) (w w' w'' : env.World)
      → chosen (active_of t r) ≡ none
      → run env (get_nodes_from_router t) r w ≡ (ok found, r', w')
      → env.serve (race (ping_urls t (or_fallbacks t found))) w'
        ≡ (settled (fails ++ (k, true) ∷ rest), w'')
      → All Failed fails
      → get_elem? (or_fallbacks t found) k ≡ some node
      → run env (get_node t) r w ≡ (ok node, set_active t (some node) r', w'')
  get_node-fastest t found fails rest k node r r' w w' w'' unset listed served h at =
      get_node_of_pinged t found node r r' w w' w'' unset listed
        (ping_all-fastest t (or_fallbacks t found) fails rest k node r' w' w'' served h at)

  first_of_fallbacks :
      (t : NodeType) (found : List String)
      → get_elem? (or_fallbacks t found) 0 ≡ some (first_node (or_fallbacks t found))
  unfolding or_fallbacks
  first_of_fallbacks t (n ∷ ns) = refl
  first_of_fallbacks search [] = refl
  first_of_fallbacks consensus [] = refl
  first_of_fallbacks storage [] = refl

  -- If no node of a type is active, `getNodesFromRouter` returns a list of nodes, and every ping of
  -- that list, or of the fallbacks if it is empty, fails, then the getter of the type does not
  -- throw: it returns the first node of that list, or the first fallback if it is empty, and leaves
  -- the router as `getNodesFromRouter` left it, with that node as the active one.
  pub get_node-none_up :
      (t : NodeType) (found : List String) (ends : List (ℕ × Bool)) (r r' : NodeRouter)
      (w w' w'' : env.World)
      → chosen (active_of t r) ≡ none
      → run env (get_nodes_from_router t) r w ≡ (ok found, r', w')
      → env.serve (race (ping_urls t (or_fallbacks t found))) w' ≡ (settled ends, w'')
      → All Failed ends
      → (node : String) × (get_elem? (or_fallbacks t found) 0 ≡ some node)
        × (run env (get_node t) r w ≡ (ok node, set_active t (some node) r', w''))
  get_node-none_up t found ends r r' w w' w'' unset listed served h = (
    _,
    first_of_fallbacks t found,
    get_node_of_pinged t found _ r r' w w' w'' unset listed
        (ping_all-none_up t (or_fallbacks t found) ends r' w' w'' served h),
  )

  select-active :
      (t : NodeType) (r r' : NodeRouter) (w w' : env.World) (node : String)
      → run env (select t) r w ≡ (ok node, r', w')
      → active_of t r' ≡ some node
  select-active t r r' w w' node e =
      go (run env (find_fastest_node t) r w)
        (sym (run-bind env (find_fastest_node t) (keep t) r w) ∙ e)
    where
      go :
          (x : Outcome String × NodeRouter × env.World)
          → continue_with env (keep t) x ≡ (ok node, r', w')
          → active_of t r' ≡ some node
      go (ok found, s, v) h =
          unfold run in
          (let same : found ≡ node = let first = ap (λ x. x.0) h in cc in
            ap (active_of t) (sym (ap (λ x. x.1) h))
            ∙ active_of-set_active t (some found) s
            ∙ ap some same)
      go (err x, s, v) h = let first = ap (λ x. x.0) h in cc
      go (pending, s, v) h = let first = ap (λ x. x.0) h in cc

  chosen_of_truthy :
      (o : Option String) (node : String)
      → o ≡ some node
      → truthy node ≡ true
      → chosen o ≡ some node
  chosen_of_truthy o node is good = rw (is, chosen, good) refl

  -- If a getter of the router returns a node that is not the empty text, then from the state it
  -- left the getter of the same type returns that node again, at whatever time and in whatever
  -- state of the network, with no request and no change of the state.
  pub get_node_twice :
      (t : NodeType) (r r' : NodeRouter) (w w' w'' : env.World) (node : String)
      → run env (get_node t) r w ≡ (ok node, r', w')
      → truthy node ≡ true
      → run env (get_node t) r' w'' ≡ (ok node, r', w'')
  get_node_twice t r r' w w' w'' node e good = elim (Option-cases (chosen (active_of t r))) [
    | inl unset ↦
        let active = select-active t r r' w w' node (sym (get_node_of_unset t r w unset) ∙ e) in
        get_node_of_set t r' w'' node (chosen_of_truthy (active_of t r') node active good)
    | inr (old, is) ↦
        let both = sym (get_node_of_set t r w old is) ∙ e in
        let same : old ≡ node = let first = ap (λ x. x.0) both in cc in
        let kept : chosen (active_of t r') ≡ chosen (active_of t r) =
          ap (λ x. chosen (active_of t x.1)) (sym both) in
        get_node_of_set t r' w'' node (kept ∙ is ∙ ap some same)
  ]
