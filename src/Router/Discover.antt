-- ===== src/Router/Discover.antt =====
-- `getNodesFromRouter`: the cached list while it is fresh, else the router's answer, else the
-- stale list.
use feedo.Base.{
  ℕ, ◌-◌, String, ◌<>◌, List, [], ◌∷◌, Option, none, some, Bool, true, false, ◌&&◌, truthy, ltb,
  if◌then◌else◌,
}
use feedo.Runtime.Async.{Async, done, fail, read, write, now, call, ◌>>=◌, try_catch}
use feedo.Runtime.Wire.{
  Request, Response, RouterNode, Parsed, nodes, other, empty, http, Reply, answered, refused,
  settled, network, bad_status, type_error, ok_status,
}
use feedo.Router.State.{
  NodeType, node_type_name, CacheEntry, NodeRouter, cache_ttl_ms, cache_of, set_cache,
}

abbrev pub Action : Type 0 → Type 0
Action = Async NodeRouter

-- `this`, and `Date.now()`.
abbrev pub this : Action NodeRouter
this = read done

abbrev pub date_now : Action ℕ
date_now = now done

-- How axios reads an answer: a refusal and a status outside 200..299 are thrown.
unfoldable pub axios_reply : Reply → Action Response
axios_reply (answered r) = if ok_status r.status then done r else fail (bad_status r.status)
axios_reply (refused e) = fail (network e)
axios_reply (settled _) = fail type_error

unfoldable pub axios : Request → Action Response
unfolding axios_reply ok_status
axios req = call (http req) axios_reply

abbrev pub get_request : String → Request
get_request url = record { method = "GET"; url = url; headers = []; body = empty }

abbrev pub discover_url : NodeType → NodeRouter → String
discover_url t r = r.router_url <> "/discover?type=" <> node_type_name t

-- `n.public_domain || n.internal_http`
abbrev pub node_url : RouterNode → String
node_url n = if truthy n.public_domain then n.public_domain else n.internal_http

-- `.map(n => …).filter(Boolean)`
unfoldable pub node_urls : List RouterNode → List String
node_urls [] = []
node_urls (n ∷ ns) =
    let rest = node_urls ns in if truthy (node_url n) then node_url n ∷ rest else rest

-- `resp.data.nodes.map`, a TypeError if there is no such list
unfoldable pub read_nodes : Parsed → Action (List String)
unfolding node_urls
read_nodes (nodes ns) = done (node_urls ns)
read_nodes (other v) = fail type_error

-- The end of the `try` block: a list that is not empty is stored and returned.
unfoldable pub store_nodes : NodeType → List String → Action (Option (List String))
store_nodes t [] = done none
store_nodes t (u ∷ us) = do
  time ← date_now
  r ← this
  write (set_cache t (record { nodes = u ∷ us; timestamp = time }) r) (done (some (u ∷ us)))

unfoldable pub fetch_nodes : NodeType → Action (Option (List String))
unfolding axios read_nodes store_nodes
fetch_nodes t = do
  r ← this
  resp ← axios (get_request (discover_url t r))
  urls ← read_nodes resp.parsed
  store_nodes t urls

-- `Date.now() - cached.timestamp < this.cacheTtlMs && cached.nodes.length > 0`
unfoldable pub is_fresh : ℕ → CacheEntry → Bool
is_fresh time e = ltb (time - e.timestamp) cache_ttl_ms && has_nodes e.nodes
  where
    has_nodes : List String → Bool
    has_nodes [] = false
    has_nodes (u ∷ us) = true

abbrev pub or_else : List String → Option (List String) → List String
or_else old none = old
or_else old (some urls) = urls

unfoldable pub get_nodes_from_router : NodeType → Action (List String)
unfolding fetch_nodes is_fresh
get_nodes_from_router t = do
  r ← this
  time ← date_now
  let cached = cache_of t r
  let fetched = try_catch (fetch_nodes t) (λ _. done none) >>= λ o. done (or_else cached.nodes o)
  if is_fresh time cached then done cached.nodes else fetched
