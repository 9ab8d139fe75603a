-- ===== src/Router/Tests.antt =====
-- A router that knows two storage nodes, of which the second answers first.
use feedo.Base.{
  ℕ, suc, ◌+◌, ◌≡◌, refl, String, List, [], ◌∷◌, get_elem?, none, some, true, false, truthy, arith,
}
use feedo.Runtime.Wire.{RouterNode, nodes, Call, http, race, Reply, answered, settled, ok_status}
use feedo.Runtime.Async.{Env, ok, run}
use feedo.Runtime.Bounds.{Within}
use feedo.Router.State.{
  storage, NodeRouter, new_router, cache_of, set_cache, active_of, set_active, search,
}
use feedo.Router.Discover.{is_fresh, node_urls, get_nodes_from_router, axios, read_nodes}
use feedo.Router.Select.{chosen, or_fallbacks, get_node, invalidate_node}
use feedo.Router.Bounded.{get_node-Within}
use feedo.Router.Cache.{
  refreshed, get_nodes_from_router-fresh, get_nodes_from_router-stale, get_nodes_from_router-cached,
}
use feedo.Router.Active.{get_node-fastest, get_node-none_up, get_node_twice}

abbrev two_nodes : List RouterNode
two_nodes =
    record { kind = "storage"; public_domain = "https://a"; internal_http = "http://10.0.0.1" }
    ∷ record { kind = "storage"; public_domain = ""; internal_http = "http://10.0.0.2" }
    ∷ []

abbrev serve_two : Call → Reply
serve_two (http req) =
    answered (record { status = 200; parsed = nodes two_nodes; text = ""; bytes = [] })
serve_two (race urls) = settled ((0, false) ∷ (1, true) ∷ [])

-- The world counts the requests, and the clock goes on by one with each.
abbrev two_up : Env
two_up = record { World = ℕ; serve = λ c w. (serve_two c, suc w); clock = λ w. 1000000 + w }

abbrev none_up : Env
none_up = record {
  World = ℕ;
  serve = λ c w. (settled ((1, false) ∷ (0, false) ∷ []), suc w);
  clock = λ w. 1000000 + w;
}

abbrev start : NodeRouter
start = new_router none

abbrev urls : List String
urls = "https://a" ∷ "http://10.0.0.2" ∷ []

abbrev listed_at : ℕ → NodeRouter
listed_at t = set_cache storage (record { nodes = urls; timestamp = t }) start

abbrev active : NodeRouter
active = set_active storage (some "http://10.0.0.2") (listed_at 1000001)

start_stale : is_fresh (two_up.clock 0) (cache_of storage start) ≡ false
unfolding new_router is_fresh
start_stale = refl

listed_fresh : is_fresh (two_up.clock 5) (cache_of storage (listed_at 1000001)) ≡ true
unfolding new_router is_fresh
listed_fresh = refl

first_list : run two_up (get_nodes_from_router storage) start 0 ≡ (ok urls, listed_at 1000001, 1)
unfolding run get_nodes_from_router new_router truthy axios read_nodes ok_status
first_list = refl

first_node_chosen : run two_up (get_node storage) start 0 ≡ (ok "http://10.0.0.2", active, 2)
unfolding run get_nodes_from_router new_router truthy axios read_nodes ok_status get_node
first_node_chosen = refl

get_nodes_from_router-fresh_example :
    run two_up (get_nodes_from_router storage) (listed_at 1000001) 5
    ≡ (ok urls, listed_at 1000001, 5)
unfolding new_router
get_nodes_from_router-fresh_example =
    get_nodes_from_router-fresh two_up storage (listed_at 1000001) 5 listed_fresh

get_nodes_from_router-stale_example :
    run two_up (get_nodes_from_router storage) start 0 ≡ refreshed two_up storage urls start 1
unfolding ok_status node_urls truthy
get_nodes_from_router-stale_example = get_nodes_from_router-stale two_up storage start 0 start_stale

get_nodes_from_router-cached_example :
    run two_up (get_nodes_from_router storage) (listed_at 1000001) 5
    ≡ (ok urls, listed_at 1000001, 5)
unfolding ok_status node_urls truthy
get_nodes_from_router-cached_example =
    get_nodes_from_router-cached two_up storage start (listed_at 1000001) 0 1 5 "https://a"
      ("http://10.0.0.2" ∷ []) start_stale refl first_list (omega arith)

unset : chosen (active_of storage start) ≡ none
unfolding new_router
unset = refl

get_node-fastest_example :
    run two_up (get_node storage) start 0
    ≡ (ok "http://10.0.0.2", set_active storage (some "http://10.0.0.2") (listed_at 1000001), 2)
unfolding or_fallbacks
get_node-fastest_example =
    get_node-fastest two_up storage urls ((0, false) ∷ []) [] 1 "http://10.0.0.2" start
      (listed_at 1000001) 0 1 2 unset first_list refl (refl, tt) refl

-- The router cannot be reached, and no node is up.
get_node-none_up_example :
    (node : String) × (get_elem? (or_fallbacks search []) 0 ≡ some node)
    × (run none_up (get_node search) start 0 ≡ (ok node, set_active search (some node) start, 2))
unfolding or_fallbacks new_router get_nodes_from_router run
get_node-none_up_example =
    get_node-none_up none_up search [] ((1, false) ∷ (0, false) ∷ []) start start 0 1 2 refl refl
      refl (refl, (refl, tt))

get_node_twice_example :
    run two_up (get_node storage) active 400000 ≡ (ok "http://10.0.0.2", active, 400000)
unfolding truthy
get_node_twice_example =
    get_node_twice two_up storage start active 0 2 400000 "http://10.0.0.2" first_node_chosen refl

invalidate_node_test : run two_up (invalidate_node storage) active 7 ≡ (ok tt, listed_at 1000001, 7)
unfolding invalidate_node new_router run
invalidate_node_test = refl

get_node-Within_example : Within (λ _ _. Unit) (λ _. Unit) (λ _. ⊥) 11 (get_node storage)
get_node-Within_example = get_node-Within (λ _ _. Unit) (λ _. ⊥) storage
