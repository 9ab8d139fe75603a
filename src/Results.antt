-- ===== src/Results.antt =====
-- web/src/app/search/page.tsx: the page that shows what the search nodes find.
pub mod Shown
pub mod Found
pub mod Tests
use feedo.Base.{
  String, ◌<>◌, List, [], ◌∷◌, Option, none, some, Bool, true, false, ℕ, truthy, if◌then◌else◌,
}
use feedo.Json.{Json, null, bool, num, str, arr, obj, get_field, list_of, is_true}
use feedo.Storage.Files.{entry_text}
use feedo.Text.{encode_uri_component}

abbrev pub search_nodes : List String
search_nodes = "http://178.18.253.94:8000" ∷ "http://95.111.245.68:8000" ∷ []

abbrev pub consensus_nodes : List String
consensus_nodes = "http://95.111.245.68:3000" ∷ "http://178.18.253.94:3000" ∷ []

-- `v?.name` of a parsed value or `undefined`: the names that are asked are no properties of texts,
-- numbers and arrays.
unfoldable pub optional : String → Option Json → Option Json
unfolding get_field
optional name (some (obj fs)) = get_field name fs
optional name (some v) = none
optional name none = none

-- `v.name`, with `none` for the TypeError that `null` raises.
unfoldable pub member : String → Json → Option (Option Json)
unfolding optional
member name null = none
member name v = some (optional name (some v))

-- `a || b`
unfoldable pub or_else : Option Json → Json → Json
unfolding is_true
or_else none b = b
or_else (some a) b = if is_true a then a else b

-- `mappedResults`
pub record Result : Type 0 where
  pub title : Json
  pub domain : Json
  pub cid : Option Json
  pub description : Json

abbrev pub no_description : Json
no_description =
    str "Decentralized build for this protocol. Indexed and archived on the Feedo Network."

-- What the page asks for: an answer to a GET request that is ok and parses, and a part of a text.
pub record Host : Type 0 where
  pub get_json : String → Option Json
  pub substring : String → ℕ → ℕ → String

-- The loop over the consensus nodes, for a result without a domain.
unfoldable pub resolve : Host → Option Json → List String → Option Json
unfolding is_true entry_text
resolve host hash_id [] = none
resolve host hash_id (node ∷ rest) =
    let later = resolve host hash_id rest in
    elim (host.get_json (node <> "/resolve_cid/" <> entry_text hash_id)) [
      | none ↦ later
      | some resolved ↦ if is_true resolved then some resolved else later
    ]

unfoldable pub domain_of : Host → Option Json → Option Json → Json
unfolding or_else resolve is_true
domain_of host metadata hash_id =
    let resolved = or_else (resolve host hash_id consensus_nodes) (str "unknown.feedo") in
    or_else (optional "domain" metadata) resolved

-- `r.text?.substring(0, 200)`: none where the value has no such method.
unfoldable pub beginning : Host → Option Json → Option (Option Json)
beginning host (some (str s)) = some (some (str (host.substring s 0 200)))
beginning host (some null) = some none
beginning host none = some none
beginning host (some (bool b)) = none
beginning host (some (num n)) = none
beginning host (some (arr vs)) = none
beginning host (some (obj fs)) = none

unfoldable pub or_default : Option (Option Json) → Option Json
unfolding or_else
or_default none = none
or_default (some words) = some (or_else words no_description)

unfoldable pub describe : Host → Option Json → Option Json → Option Json
unfolding is_true beginning or_default
describe host none text = or_default (beginning host text)
describe host (some given) text =
    if is_true given then some given else or_default (beginning host text)

unfoldable pub result_of : Json → Option Json → Option Json → Option Json → Option Result
unfolding or_else optional
result_of domain metadata hash_id none = none
result_of domain metadata hash_id (some description) = some (record {
  title = or_else (optional "title" metadata) domain;
  domain = domain;
  cid = hash_id;
  description = description;
})

-- One result; of a result `null` no property can be read.
unfoldable pub map_result : Host → Json → Option Result
unfolding member domain_of describe result_of optional
map_result host r = elim (member "metadata" r) [
  | none ↦ none
  | some metadata ↦
      let hash_id = optional "hash_id" (some r) in
      result_of (domain_of host metadata hash_id) metadata hash_id
        (describe host (optional "description" metadata) (optional "text" (some r)))
]

-- `Promise.all(data.results.map(...))`: it fails when one result does.
unfoldable pub map_all : Host → List Json → Option (List Result)
unfolding map_result
map_all host [] = some []
map_all host (r ∷ rs) = elim (map_result host r) [
  | none ↦ none
  | some result ↦ elim (map_all host rs) [ none ↦ none | some results ↦ some (result ∷ results) ]
]

-- `data.results.map` of what is true: only an array has it.
unfoldable pub mapped_results : Host → Json → Option (List Result)
unfolding list_of map_all
mapped_results host (arr vs) = map_all host (list_of vs)
mapped_results host v = none

-- What is made of the data of a node: none where it has no results, or an error is caught.
unfoldable pub read_data : Host → Json → Option (List Result)
unfolding optional is_true mapped_results
read_data host answer = elim (optional "results" (some answer)) [
  | none ↦ none
  | some results ↦ if is_true results then mapped_results host results else none
]

-- `query ? encodeURIComponent(query) : 'defi'`
unfoldable pub query_text : String → String
unfolding truthy encode_uri_component
query_text query = if truthy query then encode_uri_component query else "defi"

unfoldable pub query_url : String → String → String
unfolding query_text
query_url node query = node <> "/query?text=" <> query_text query <> "&limit=50&item_type=website"

-- What one round of the loop over the nodes returns.
unfoldable pub ask_node : Host → String → String → Option (List Result)
unfolding query_url read_data
ask_node host query node = elim (host.get_json (query_url node query)) [
  | none ↦ none
  | some answer ↦ read_data host answer
]

unfoldable pub fetch_from : Host → String → List String → List Result
unfolding ask_node
fetch_from host query [] = []
fetch_from host query (node ∷ rest) =
    let later = fetch_from host query rest in
    elim (ask_node host query node) [ some results ↦ results | none ↦ later ]

unfoldable pub fetch_from_nodes : Host → String → List Result
unfolding fetch_from
fetch_from_nodes host query = fetch_from host query search_nodes

-- The address of the viewer for a result, as the page writes it.
unfoldable pub view_href : Result → String
unfolding entry_text
view_href r = "/view?domain=" <> entry_text (some r.domain) <> "&cid=" <> entry_text r.cid
