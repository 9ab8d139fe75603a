-- ===== src/Router/Cache.antt =====
-- The cache of discovered nodes: when the router is asked, and what is kept of its answer.
use feedo.Base.{
  ℕ, ◌+◌, ◌-◌, ◌<◌, ◌≡◌, refl, sym, ap, ◌∙◌, String, List, [], ◌∷◌, Option, none, true, false, inl,
  inr, lt→ltb, if◌then◌else◌, arith, Bool-cases,
}
use feedo.Runtime.Wire.{Parsed, nodes, other, http, Reply, answered, refused, settled, ok_status}
use feedo.Runtime.Async.{done, ◌>>=◌, Env, Outcome, ok, run, try_catch}
use feedo.Router.State.{
  NodeType, search, consensus, storage, CacheEntry, NodeRouter, cache_ttl_ms, cache_of, set_cache,
}
use feedo.Router.Discover.{
  Action, or_else, get_request, discover_url, node_urls, read_nodes, store_nodes, axios_reply,
  fetch_nodes, is_fresh, get_nodes_from_router,
}

abbrev pub listed : Parsed → List String
listed (nodes ns) = node_urls ns
listed (other v) = []

-- The addresses that an answer of the router gives, none if it cannot be used.
abbrev pub discovered : Reply → List String
discovered (answered r) = if ok_status r.status then listed r.parsed else []
discovered (refused e) = []
discovered (settled ends) = []

module _ (env : Env) where
  -- What a call that asks the router returns and keeps.
  abbrev pub refreshed :
      NodeType
      → List String
      → NodeRouter
      → env.World
      → Outcome (List String) × NodeRouter × env.World
  refreshed t [] r w = (ok (cache_of t r).nodes, r, w)
  refreshed t (u ∷ us) r w =
      (ok (u ∷ us), set_cache t (record { nodes = u ∷ us; timestamp = env.clock w }) r, w)

  pub get_nodes_from_router-fresh :
      (t : NodeType) (r : NodeRouter) (w : env.World)
      → is_fresh (env.clock w) (cache_of t r) ≡ true
      → run env (get_nodes_from_router t) r w ≡ (ok (cache_of t r).nodes, r, w)
  unfolding get_nodes_from_router run
  get_nodes_from_router-fresh t r w fresh = rw (fresh, run)

  module _ (t : NodeType) (r : NodeRouter) (w : env.World) where
    -- The rest of `getNodesFromRouter` after a step of its `try` block.
    abbrev finish : Action (Option (List String)) → Outcome (List String) × NodeRouter × env.World
    finish p =
        run env (try_catch p (λ _. done none) >>= λ o. done (or_else (cache_of t r).nodes o)) r w

    after_store : (urls : List String) → finish (store_nodes t urls) ≡ refreshed t urls r w
    unfolding store_nodes run
    after_store [] = refl
    after_store (u ∷ us) = refl

    after_read : (p : Parsed) → finish (read_nodes p >>= store_nodes t) ≡ refreshed t (listed p) r w
    unfolding read_nodes
    after_read (nodes ns) = after_store (node_urls ns)
    after_read (other v) = unfold run in refl

    after_reply :
        (reply : Reply)
        → finish (axios_reply reply >>= λ resp. read_nodes resp.parsed >>= store_nodes t)
          ≡ refreshed t (discovered reply) r w
    unfolding axios_reply
    after_reply (answered resp) = elim (Bool-cases (ok_status resp.status)) [
      | inl good ↦ rw good (after_read resp.parsed)
      | inr bad ↦ rw bad (unfold run in refl)
    ]
    after_reply (refused e) = unfold run in refl
    after_reply (settled ends) = unfold run in refl

  -- If the cached list of a node type is not fresh, `getNodesFromRouter` asks the router once. It
  -- returns and keeps the addresses of a good answer, with the time after it, if there is one, and
  -- else returns the old list and keeps the state, also after an error.
  pub get_nodes_from_router-stale :
      (t : NodeType) (r : NodeRouter) (w : env.World)
      → is_fresh (env.clock w) (cache_of t r) ≡ false
      → let (reply, w') = env.serve (http (get_request (discover_url t r))) w in
        run env (get_nodes_from_router t) r w ≡ refreshed t (discovered reply) r w'
  unfolding get_nodes_from_router fetch_nodes run
  get_nodes_from_router-stale t r w stale =
      let (reply, w') = env.serve (http (get_request (discover_url t r))) w in
      rw (stale, run) (after_reply t r w' reply)

  cache_of-set_cache :
      (t : NodeType) (e : CacheEntry) (r : NodeRouter) → cache_of t (set_cache t e r) ≡ e
  cache_of-set_cache search e r = refl
  cache_of-set_cache consensus e r = refl
  cache_of-set_cache storage e r = refl

  is_fresh_within :
      (time stamp : ℕ) (u : String) (us : List String)
      → time < stamp + cache_ttl_ms
      → is_fresh time (record { nodes = u ∷ us; timestamp = stamp }) ≡ true
  unfolding is_fresh
  is_fresh_within time stamp u us h = rw (lt→ltb (time - stamp) cache_ttl_ms (omega arith))

  -- If the cached list is not fresh and the router's answer gives an address, then what
  -- `getNodesFromRouter` returns is returned again by a later call that starts from the state it
  -- left and less than five minutes after the answer, with no request and no change of the state.
  pub get_nodes_from_router-cached :
      (t : NodeType) (r r' : NodeRouter) (w w' w'' : env.World) (u : String) (us : List String)
      → is_fresh (env.clock w) (cache_of t r) ≡ false
      → discovered (env.serve (http (get_request (discover_url t r))) w).0 ≡ u ∷ us
      → run env (get_nodes_from_router t) r w ≡ (ok (u ∷ us), r', w')
      → env.clock w'' < env.clock w' + cache_ttl_ms
      → run env (get_nodes_from_router t) r' w'' ≡ (ok (u ∷ us), r', w'')
  get_nodes_from_router-cached t r r' w w' w'' u us stale found first soon =
      get_nodes_from_router-fresh t r' w''
        (rw cached (is_fresh_within (env.clock w'') (env.clock w') u us soon))
      ∙ rw cached
    where
      after : env.World
      after = (env.serve (http (get_request (discover_url t r))) w).1

      stored_at : ℕ → CacheEntry
      stored_at time = record { nodes = u ∷ us; timestamp = time }

      both :
          ◌≡◌ {A = Outcome (List String) × NodeRouter × env.World}
            (ok (u ∷ us), set_cache t (stored_at (env.clock after)) r, after)
            (ok (u ∷ us), r', w')
      both =
          sym (get_nodes_from_router-stale t r w stale ∙ ap (λ l. refreshed t l r after) found)
          ∙ first

      kept : set_cache t (stored_at (env.clock w')) r ≡ r'
      kept =
          ap (λ x. set_cache t (stored_at (env.clock x)) r) (sym (ap (λ x. x.2) both))
          ∙ ap (λ x. x.1) both

      cached : cache_of t r' ≡ stored_at (env.clock w')
      cached = ap (cache_of t) (sym kept) ∙ cache_of-set_cache t (stored_at (env.clock w')) r
