-- ===== src/Router/Select.antt =====
-- `findFastestNode`, and the active node of each type.
use feedo.Base.{
  ℕ, String, ◌<>◌, List, [], ◌∷◌, map, Option, none, some, Bool, true, false, truthy, get_elem?,
  if◌then◌else◌,
}
use feedo.Runtime.Async.{done, fail, write, call, ◌>>=◌, try_catch}
use feedo.Runtime.Wire.{race, Reply, answered, refused, settled, message}
use feedo.Router.State.{NodeType, search, consensus, storage, active_of, set_active}
use feedo.Router.Discover.{Action, this, get_nodes_from_router}

abbrev pub fallbacks : NodeType → List String
fallbacks search = "https://api.feedo.ink" ∷ "http://localhost:8000" ∷ []
fallbacks consensus = "https://api.feedo.ink/consensus" ∷ "http://localhost:3000" ∷ []
fallbacks storage = "https://api.feedo.ink/storage" ∷ "http://localhost:3001" ∷ []

abbrev pub health_endpoint : NodeType → String
health_endpoint search = "/explorer/stats"
health_endpoint consensus = "/grants"
health_endpoint storage = "/api/files/recent"

unfoldable pub or_fallbacks : NodeType → List String → List String
or_fallbacks t [] = fallbacks t
or_fallbacks t (n ∷ ns) = n ∷ ns

-- `Promise.any`: the first of the requests, in the order in which they end, that succeeded.
unfoldable pub promise_any : List String → List (ℕ × Bool) → Option String
promise_any nodes [] = none
promise_any nodes ((k, false) ∷ ends) = promise_any nodes ends
promise_any nodes ((k, true) ∷ ends) =
    let later = promise_any nodes ends in
    elim (get_elem? nodes k) [ some node ↦ some node | none ↦ later ]

unfoldable pub await_any : List String → Reply → Action String
unfolding promise_any
await_any nodes (settled ends) = elim (promise_any nodes ends) [
  | some node ↦ done node
  | none ↦ fail (message "All promises were rejected")
]
await_any nodes (answered _) = fail (message "All promises were rejected")
await_any nodes (refused _) = fail (message "All promises were rejected")

-- `nodes[0] || ""`
abbrev pub first_node : List String → String
first_node [] = ""
first_node (n ∷ ns) = n

unfoldable pub ping_urls : NodeType → List String → List String
ping_urls t = map (λ node. node <> health_endpoint t)

unfoldable pub ping_all : NodeType → List String → Action String
unfolding await_any
ping_all t nodes =
    try_catch (call (race (ping_urls t nodes)) (await_any nodes)) λ _. done (first_node nodes)

unfoldable pub find_fastest_node : NodeType → Action String
unfolding ping_all or_fallbacks get_nodes_from_router
find_fastest_node t = do found ← get_nodes_from_router t; ping_all t (or_fallbacks t found)

-- Whether `!this.active…Node` is false: the node is set, and not the empty text.
abbrev pub chosen : Option String → Option String
chosen none = none
chosen (some node) = if truthy node then some node else none

abbrev pub select : NodeType → Action String
select t = do node ← find_fastest_node t; r ← this; write (set_active t (some node) r) (done node)

-- `getSearchNode`, `getConsensusNode` and `getStorageNode`
unfoldable pub get_node : NodeType → Action String
unfolding find_fastest_node
get_node t = do r ← this; elim (chosen (active_of t r)) [ some node ↦ done node | none ↦ select t ]

-- `invalidateSearchNode`, `invalidateConsensusNode` and `invalidateStorageNode`
unfoldable pub invalidate_node : NodeType → Action (Unit {0})
invalidate_node t = do r ← this; write (set_active t none r) (done tt)
