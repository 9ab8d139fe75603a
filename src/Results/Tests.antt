-- ===== src/Results/Tests.antt =====
-- A search that the first node refuses.
use feedo.Base.{◌≡◌, refl, String, [], ◌∷◌, Option, none, some, All, truthy, str_eq, if◌then◌else◌}
use feedo.Json.{Json, str, arr, obj, cons, nil, field, end, is_true}
use feedo.Storage.Files.{entry_text, text_of}
use feedo.Results.{Host, fetch_from_nodes, search_nodes, resolve, query_url, query_text}
use feedo.Results.Shown.{IsShown}
use feedo.Results.Found.{IsFirst, fetch_from_nodes-IsFirst}

-- One result, without a domain.
abbrev found : Json
found = obj (field "results" (arr (cons (obj (field "hash_id" (str "Qm1") end)) nil)) end)

abbrev get_json : String → Option Json
get_json url =
    if str_eq url "http://95.111.245.68:8000/query?text=defi&limit=50&item_type=website"
    then some found
    else if str_eq url "http://178.18.253.94:3000/resolve_cid/Qm1"
    then some (str "a.feedo")
    else none

abbrev host : Host
host = record { get_json = get_json; substring = λ s from to. s }

resolve_test :
    resolve host (some (str "Qm1")) ("http://95.111.245.68:3000" ∷ "http://178.18.253.94:3000" ∷ [])
    ≡ some (str "a.feedo")
unfolding resolve entry_text text_of is_true truthy
resolve_test = refl

query_url_test :
    query_url "http://95.111.245.68:8000" ""
    ≡ "http://95.111.245.68:8000/query?text=defi&limit=50&item_type=website"
unfolding query_url query_text truthy
query_url_test = refl

fetch_from_nodes-IsFirst_example :
    IsFirst host "" search_nodes (fetch_from_nodes host "") × All IsShown (fetch_from_nodes host "")
fetch_from_nodes-IsFirst_example = fetch_from_nodes-IsFirst host ""
