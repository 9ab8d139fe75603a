-- ===== src/Router/Bounded.antt =====
-- How many actions the choice of a node takes, and what it may throw.
use feedo.Base.{ℕ, String, List, [], ◌∷◌, Option, none, some, inl, inr, Bool-cases, Option-cases}
use feedo.Runtime.Wire.{
  Reply, answered, refused, settled, Error, Parsed, nodes, other, ok_status, race,
}
use feedo.Runtime.Async.{done, read, write, call, ◌>>=◌, try_catch}
use feedo.Runtime.Bounds.{Contract, Within, Within-bind, Within-try_catch}
use feedo.Router.State.{NodeType, cache_of, active_of, set_active}
use feedo.Router.Discover.{
  Action, axios_reply, axios, read_nodes, store_nodes, fetch_nodes, is_fresh, get_nodes_from_router,
  or_else,
}
use feedo.Router.Select.{
  await_any, promise_any, ping_all, ping_urls, find_fastest_node, chosen, select, get_node,
  first_node, invalidate_node, or_fallbacks,
}

module _ (H : Contract) where
  abbrev Anything : {A : Type 0} → ℕ → Action A → Type 0
  Anything = Within H (λ _. Unit) (λ _. Unit)

  axios_reply-Within : (reply : Reply) → Anything 0 (axios_reply reply)
  unfolding axios_reply
  axios_reply-Within (answered r) = elim (Bool-cases (ok_status r.status)) [
    | inl good ↦ rw good tt
    | inr bad ↦ rw bad tt
  ]
  axios_reply-Within (refused e) = tt
  axios_reply-Within (settled ends) = tt

  read_nodes-Within : (p : Parsed) → Anything 0 (read_nodes p)
  unfolding read_nodes
  read_nodes-Within (nodes ns) = tt
  read_nodes-Within (other v) = tt

  store_nodes-Within : (t : NodeType) (urls : List String) → Anything 3 (store_nodes t urls)
  unfolding store_nodes
  store_nodes-Within t [] = tt
  store_nodes-Within t (u ∷ us) = λ time r. tt

  fetch_nodes-Within : (t : NodeType) → Anything 5 (fetch_nodes t)
  unfolding fetch_nodes axios
  fetch_nodes-Within t = λ r reply honest.
      Within-bind H (λ _. Unit) (λ _. Unit) (λ _. Unit) 0 3 (axios_reply reply)
        (λ resp. read_nodes resp.parsed >>= store_nodes t) (axios_reply-Within reply)
        λ resp _.
          Within-bind H (λ _. Unit) (λ _. Unit) (λ _. Unit) 0 3 (read_nodes resp.parsed)
            (store_nodes t) (read_nodes-Within resp.parsed) (λ urls _. store_nodes-Within t urls)

  module _ (Q : Error → Type 0) where
    abbrev Safe : {A : Type 0} → ℕ → Action A → Type 0
    Safe = Within H (λ _. Unit) Q

    abbrev no_urls : Error → Action (Option (List String))
    no_urls _ = done none

    get_nodes_from_router-Within : (t : NodeType) → Safe 7 (get_nodes_from_router t)
    unfolding get_nodes_from_router
    get_nodes_from_router-Within t = λ r time. elim (Bool-cases (is_fresh time (cache_of t r))) [
      | inl fresh ↦ rw fresh tt
      | inr stale ↦ rw stale (
          Within-bind H (λ _. Unit) (λ _. Unit) Q 5 0 (try_catch (fetch_nodes t) no_urls)
            (λ o. done (or_else (cache_of t r).nodes o))
            (Within-try_catch H (λ _. Unit) (λ _. Unit) Q 5 0 (fetch_nodes t) no_urls
              (fetch_nodes-Within t) (λ e _. tt))
            (λ o _. tt))
    ]

    await_any-Within :
        (ns : List String) (reply : Reply)
        → Within H (λ _. Unit {0}) (λ _. Unit {0}) 0 (await_any ns reply)
    unfolding await_any
    await_any-Within ns (answered r) = tt
    await_any-Within ns (refused e) = tt
    await_any-Within ns (settled ends) = elim (Option-cases (promise_any ns ends)) [
      | inl none_up ↦ rw (none_up, await_any) tt
      | inr (node, up) ↦ rw (up, await_any) tt
    ]

    ping_all-Within : (t : NodeType) (ns : List String) → Safe 1 (ping_all t ns)
    unfolding ping_all
    ping_all-Within t ns =
        Within-try_catch H (λ _. Unit) (λ _. Unit) Q 1 0
          (call (race (ping_urls t ns)) (await_any ns)) (λ _. done (first_node ns))
          (λ reply honest. await_any-Within ns reply) (λ e _. tt)

    find_fastest_node-Within : (t : NodeType) → Safe 8 (find_fastest_node t)
    unfolding find_fastest_node
    find_fastest_node-Within t =
        Within-bind H (λ _. Unit) (λ _. Unit) Q 7 1 (get_nodes_from_router t)
          (λ found. ping_all t (or_fallbacks t found)) (get_nodes_from_router-Within t)
          (λ found _. ping_all-Within t (or_fallbacks t found))

    select-Within : (t : NodeType) → Safe 10 (select t)
    select-Within t =
        Within-bind H (λ _. Unit) (λ _. Unit) Q 8 2 (find_fastest_node t)
          (λ node. read (λ r. write (set_active t (some node) r) (done node)))
          (find_fastest_node-Within t) (λ node _ r. tt)

    -- Whatever the network answers and whatever other tasks do to the router in between, a getter
    -- of the router returns after at most eleven actions, and throws nothing that the predicate `Q`
    -- excludes, for any `Q`.
    pub get_node-Within : (t : NodeType) → Safe 11 (get_node t)
    unfolding get_node
    get_node-Within t = λ r. elim (Option-cases (chosen (active_of t r))) [
      | inl unset ↦ rw unset (select-Within t)
      | inr (node, active) ↦ rw active tt
    ]

    pub invalidate_node-Within : (t : NodeType) → Safe 2 (invalidate_node t)
    unfolding invalidate_node
    invalidate_node-Within t = λ r. tt
