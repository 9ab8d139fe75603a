-- ===== src/Router/State.antt =====
-- The fields of `class NodeRouter` and the configuration that it is built from.
use feedo.Base.{ℕ, String, List, [], ◌∷◌, Option, none, some, truthy, if◌then◌else◌}

-- `FeedoNetworkConfig`
pub record FeedoNetworkConfig : Type 0 where
  pub search_seeds : Option (List String)
  pub consensus_seeds : Option (List String)
  pub storage_seeds : Option (List String)
  pub private_key : Option String
  pub usage_key : Option String
  pub did : Option String

-- The node types, which are the keys of the cache.
pub data NodeType : Type 0 where
  search consensus storage : NodeType

abbrev pub node_type_name : NodeType → String
node_type_name search = "search"
node_type_name consensus = "consensus"
node_type_name storage = "storage"

pub record CacheEntry : Type 0 where
  pub nodes : List String
  pub timestamp : ℕ

pub record NodeRouter : Type 0 where
  pub router_url : String
  pub active_search_node : Option String
  pub active_consensus_node : Option String
  pub active_storage_node : Option String
  pub search_cache : CacheEntry
  pub consensus_cache : CacheEntry
  pub storage_cache : CacheEntry

abbrev pub default_router_url : String
default_router_url = "https://router.feedo.ink"

abbrev pub cache_ttl_ms : ℕ
cache_ttl_ms = 300000

abbrev pub no_nodes : CacheEntry
no_nodes = record { nodes = []; timestamp = 0 }

-- `config?.searchSeeds?.[0] || ROUTER_URL`
router_url_of : Option FeedoNetworkConfig → String
router_url_of none = default_router_url
router_url_of (some config) = elim config.search_seeds [
  | some (seed ∷ seeds) ↦ if truthy seed then seed else default_router_url
  | _ ↦ default_router_url
]

unfoldable pub new_router : Option FeedoNetworkConfig → NodeRouter
unfolding router_url_of
new_router config = record {
  router_url = router_url_of config;
  active_search_node = none;
  active_consensus_node = none;
  active_storage_node = none;
  search_cache = no_nodes;
  consensus_cache = no_nodes;
  storage_cache = no_nodes;
}

-- `this.cache[nodeType]`
abbrev pub cache_of : NodeType → NodeRouter → CacheEntry
cache_of search r = r.search_cache
cache_of consensus r = r.consensus_cache
cache_of storage r = r.storage_cache

abbrev pub set_cache : NodeType → CacheEntry → NodeRouter → NodeRouter
set_cache search e r = record r { search_cache = e }
set_cache consensus e r = record r { consensus_cache = e }
set_cache storage e r = record r { storage_cache = e }

-- `activeSearchNode`, `activeConsensusNode` and `activeStorageNode`
abbrev pub active_of : NodeType → NodeRouter → Option String
active_of search r = r.active_search_node
active_of consensus r = r.active_consensus_node
active_of storage r = r.active_storage_node

abbrev pub set_active : NodeType → Option String → NodeRouter → NodeRouter
set_active search n r = record r { active_search_node = n }
set_active consensus n r = record r { active_consensus_node = n }
set_active storage n r = record r { active_storage_node = n }
