-- ===== src/Router/Queries.antt =====
-- What the calls of the choice of a node carry.
use feedo.Base.{String, List, [], ◌∷◌, Option, none, some, inl, inr, Bool-cases, Option-cases}
use feedo.Runtime.Wire.{
  Body, empty, form, json, Call, http, race, Reply, answered, refused, settled, Error, Parsed,
  nodes, other, ok_status,
}
use feedo.Runtime.Async.{done, read, write, call, ◌>>=◌, try_catch}
use feedo.Runtime.Calls.{Calls, Calls-bind, Calls-try_catch}
use feedo.Router.State.{NodeType, cache_of, active_of, set_active}
use feedo.Router.Discover.{
  Action, axios_reply, axios, read_nodes, store_nodes, fetch_nodes, is_fresh, get_nodes_from_router,
  or_else,
}
use feedo.Router.Select.{
  await_any, promise_any, ping_all, ping_urls, find_fastest_node, chosen, select, get_node,
  first_node, or_fallbacks,
}

abbrev pub HasNoJson : Body → Type 0
HasNoJson empty = Unit
HasNoJson (form filename content) = Unit
HasNoJson (json v) = ⊥

abbrev pub IsQuery : Call → Type 0
IsQuery (http req) = HasNoJson req.body
IsQuery (race urls) = Unit

abbrev Asks : {A : Type 0} → Action A → Type 0
Asks = Calls IsQuery

pub axios_reply-Calls : (C : Call → Type 0) (reply : Reply) → Calls C (axios_reply reply)
unfolding axios_reply
axios_reply-Calls C (answered r) = elim (Bool-cases (ok_status r.status)) [
  | inl good ↦ rw good tt
  | inr bad ↦ rw bad tt
]
axios_reply-Calls C (refused e) = tt
axios_reply-Calls C (settled ends) = tt

read_nodes-Asks : (p : Parsed) → Asks (read_nodes p)
unfolding read_nodes
read_nodes-Asks (nodes ns) = tt
read_nodes-Asks (other v) = tt

store_nodes-Asks : (t : NodeType) (urls : List String) → Asks (store_nodes t urls)
unfolding store_nodes
store_nodes-Asks t [] = tt
store_nodes-Asks t (u ∷ us) = λ time r. tt

fetch_nodes-Asks : (t : NodeType) → Asks (fetch_nodes t)
unfolding fetch_nodes axios
fetch_nodes-Asks t = λ r. (
  tt,
  λ reply.
      Calls-bind IsQuery (axios_reply reply) (λ resp. read_nodes resp.parsed >>= store_nodes t)
        (axios_reply-Calls IsQuery reply)
        λ resp.
          Calls-bind IsQuery (read_nodes resp.parsed) (store_nodes t) (read_nodes-Asks resp.parsed)
            (store_nodes-Asks t),
)

abbrev no_urls : Error → Action (Option (List String))
no_urls _ = done none

get_nodes_from_router-Asks : (t : NodeType) → Asks (get_nodes_from_router t)
unfolding get_nodes_from_router
get_nodes_from_router-Asks t = λ r time. elim (Bool-cases (is_fresh time (cache_of t r))) [
  | inl fresh ↦ rw fresh tt
  | inr stale ↦ rw stale (
      Calls-bind IsQuery (try_catch (fetch_nodes t) no_urls)
        (λ o. done (or_else (cache_of t r).nodes o))
        (Calls-try_catch IsQuery (fetch_nodes t) no_urls (fetch_nodes-Asks t) (λ e. tt)) (λ o. tt))
]

await_any-Asks : (ns : List String) (reply : Reply) → Asks (await_any ns reply)
unfolding await_any
await_any-Asks ns (answered r) = tt
await_any-Asks ns (refused e) = tt
await_any-Asks ns (settled ends) = elim (Option-cases (promise_any ns ends)) [
  | inl none_up ↦ rw (none_up, await_any) tt
  | inr (node, up) ↦ rw (up, await_any) tt
]

ping_all-Asks : (t : NodeType) (ns : List String) → Asks (ping_all t ns)
unfolding ping_all
ping_all-Asks t ns =
    Calls-try_catch IsQuery (call (race (ping_urls t ns)) (await_any ns))
      (λ _. done (first_node ns)) (tt, await_any-Asks ns) (λ e. tt)

select-Asks : (t : NodeType) → Asks (select t)
unfolding find_fastest_node
select-Asks t =
    Calls-bind IsQuery (find_fastest_node t)
      (λ node. read (λ r. write (set_active t (some node) r) (done node)))
      (Calls-bind IsQuery (get_nodes_from_router t) (λ found. ping_all t (or_fallbacks t found))
        (get_nodes_from_router-Asks t) (λ found. ping_all-Asks t (or_fallbacks t found)))
      (λ node r. tt)

-- Whatever it is told, a getter of the router only asks.
pub get_node-Calls : (t : NodeType) → Calls IsQuery (get_node t)
unfolding get_node
get_node-Calls t = λ r. elim (Option-cases (chosen (active_of t r))) [
  | inl unset ↦ rw unset (select-Asks t)
  | inr (node, active) ↦ rw active tt
]
