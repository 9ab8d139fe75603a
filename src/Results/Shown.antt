-- ===== src/Results/Shown.antt =====
-- Each result has a title, a domain and a description.
use feedo.Base.{
  ◌≡◌, refl, sym, subst, ap, ◌∙◌, inl, inr, String, List, [], ◌∷◌, Option, none, some, true, All,
  truthy, Bool-cases, Option-cases, if◌then◌else◌,
}
use feedo.Json.{Json, null, bool, num, str, arr, obj, list_of, is_true}
use feedo.Results.{
  Host, Result, or_else, resolve, or_default, result_of, domain_of, describe, map_result, map_all,
  mapped_results, read_data, query_url, ask_node, consensus_nodes, no_description, member, optional,
  beginning,
}

-- Whether a result can be shown.
abbrev pub IsShown : Result → Type 0
IsShown r = (is_true r.title ≡ true) × (is_true r.domain ≡ true) × (is_true r.description ≡ true)

or_else-true : (a : Option Json) (b : Json) → is_true b ≡ true → is_true (or_else a b) ≡ true
unfolding or_else
or_else-true none b h = h
or_else-true (some a) b h = elim (Bool-cases (is_true a)) [
  | inl holds ↦ rw (holds) holds
  | inr other ↦ rw (other) h
]

unknown_true : is_true (str "unknown.feedo") ≡ true
unfolding is_true truthy
unknown_true = refl

default_true : is_true no_description ≡ true
unfolding is_true truthy
default_true = refl

domain_of-true :
    (host : Host) (metadata hash_id : Option Json)
    → is_true (domain_of host metadata hash_id) ≡ true
unfolding domain_of
domain_of-true host metadata hash_id =
    or_else-true (optional "domain" metadata)
      (or_else (resolve host hash_id consensus_nodes) (str "unknown.feedo"))
      (or_else-true (resolve host hash_id consensus_nodes) (str "unknown.feedo") unknown_true)

or_default-true :
    (words : Option (Option Json)) (given : Json)
    → or_default words ≡ some given
    → is_true given ≡ true
unfolding or_default
or_default-true none given h = cc
or_default-true (some words) given h =
    let same : or_else words no_description ≡ given = cc in
    subst (λ v. is_true v ≡ true) same (or_else-true words no_description default_true)

describe-true :
    (host : Host) (description text : Option Json) (given : Json)
    → describe host description text ≡ some given
    → is_true given ≡ true
unfolding describe
describe-true host none text given h = or_default-true (beginning host text) given h
describe-true host (some v) text given h = elim (Bool-cases (is_true v)) [
  | inl holds ↦
      let same : some v ≡ some given =
        ap (λ b. if b then some v else or_default (beginning host text)) (sym holds) ∙ h in
      let is : v ≡ given = cc in subst (λ v. is_true v ≡ true) is holds
  | inr other ↦
      or_default-true (beginning host text) given
        (ap (λ b. if b then some v else or_default (beginning host text)) (sym other) ∙ h)
]

result_of-IsShown :
    (domain : Json) (metadata hash_id description : Option Json) (result : Result)
    → is_true domain ≡ true
    → ((given : Json) → description ≡ some given → is_true given ≡ true)
    → result_of domain metadata hash_id description ≡ some result
    → IsShown result
unfolding result_of
result_of-IsShown domain metadata hash_id none result named told h = cc
result_of-IsShown domain metadata hash_id (some description) result named told h =
    let same : (record {
      title = or_else (optional "title" metadata) domain;
      domain = domain;
      cid = hash_id;
      description = description;
    })
        ≡ result =
      cc in
    subst IsShown same
      (or_else-true (optional "title" metadata) domain named, named, told description refl)

map_result-IsShown :
    (host : Host) (r : Json) (result : Result) → map_result host r ≡ some result → IsShown result
unfolding map_result
map_result-IsShown host r result h = elim (Option-cases (member "metadata" r)) [
  | inl nothing ↦ (let impossible = rw (map_result, nothing) at h in cc)
  | inr (metadata, is) ↦
      let hash_id = optional "hash_id" (some r) in
      result_of-IsShown (domain_of host metadata hash_id) metadata hash_id
        (describe host (optional "description" metadata) (optional "text" (some r))) result
        (domain_of-true host metadata hash_id)
        (describe-true host (optional "description" metadata) (optional "text" (some r)))
        (rw (map_result, is) at h)
]

map_all-IsShown :
    (host : Host) (rs : List Json) (results : List Result)
    → map_all host rs ≡ some results
    → All IsShown results
unfolding map_all
map_all-IsShown host [] results h = let same : [] ≡ results = cc in subst (All IsShown) same tt
map_all-IsShown host (r ∷ rs) results h = elim (Option-cases (map_result host r)) [
  | inl nothing ↦ let impossible = rw (map_all, nothing) at h in cc
  | inr (result, is) ↦ elim (Option-cases (map_all host rs)) [
    | inl nothing ↦ let impossible = rw (map_all, is, nothing) at h in cc
    | inr (others, are) ↦
        let both = rw (map_all, is, are) at h in
        let same : result ∷ others ≡ results = cc in
        subst (All IsShown) same
          (map_result-IsShown host r result is, map_all-IsShown host rs others are)
  ]
]

mapped_results-IsShown :
    (host : Host) (v : Json) (results : List Result)
    → mapped_results host v ≡ some results
    → All IsShown results
unfolding mapped_results
mapped_results-IsShown host (arr vs) results h = map_all-IsShown host (list_of vs) results h
mapped_results-IsShown host null results h = cc
mapped_results-IsShown host (bool b) results h = cc
mapped_results-IsShown host (num n) results h = cc
mapped_results-IsShown host (str s) results h = cc
mapped_results-IsShown host (obj fs) results h = cc

read_data-IsShown :
    (host : Host) (answer : Json) (results : List Result)
    → read_data host answer ≡ some results
    → All IsShown results
unfolding read_data
read_data-IsShown host answer results h = elim (Option-cases (optional "results" (some answer))) [
  | inl nothing ↦ let impossible = rw (read_data, nothing) at h in cc
  | inr (v, is) ↦ elim (Bool-cases (is_true v)) [
    | inl holds ↦ mapped_results-IsShown host v results (rw (read_data, is, holds) at h)
    | inr other ↦ let impossible = rw (read_data, is, other) at h in cc
  ]
]

pub ask_node-IsShown :
    (host : Host) (query node : String) (results : List Result)
    → ask_node host query node ≡ some results
    → All IsShown results
unfolding ask_node
ask_node-IsShown host query node results h =
    elim (Option-cases (host.get_json (query_url node query))) [
      | inl nothing ↦ let impossible = rw (ask_node, nothing) at h in cc
      | inr (answer, is) ↦ read_data-IsShown host answer results (rw (ask_node, is) at h)
    ]
