-- ===== src/Results/Found.antt =====
-- Of which node the results come.
use feedo.Base.{
  ◌≡◌, refl, sym, subst, ap, ◌⊎◌, inl, inr, String, List, [], ◌∷◌, ◌++◌, none, some, All,
  Option-cases,
}
use feedo.Results.{Host, Result, ask_node, fetch_from, fetch_from_nodes, search_nodes}
use feedo.Results.Shown.{IsShown, ask_node-IsShown}

-- What the page returns, in terms of what each node gives.
abbrev pub IsFirst : Host → String → List String → List Result → Type 0
IsFirst host query nodes results =
    (All (λ node. ask_node host query node ≡ none) nodes × (results ≡ []))
    ⊎ ((before : List String) × (node : String) × (after : List String) × (nodes
          ≡ before ++ node ∷ after)
        × All (λ earlier. ask_node host query earlier ≡ none) before
        × (ask_node host query node ≡ some results))

fetch_from-given :
    (host : Host) (query node : String) (rest : List String) (results : List Result)
    → ask_node host query node ≡ some results
    → fetch_from host query (node ∷ rest) ≡ results
unfolding fetch_from
fetch_from-given host query node rest results given = rw (fetch_from, given) refl

fetch_from-none :
    (host : Host) (query node : String) (rest : List String)
    → ask_node host query node ≡ none
    → fetch_from host query (node ∷ rest) ≡ fetch_from host query rest
unfolding fetch_from
fetch_from-none host query node rest nothing = rw (fetch_from, nothing) refl

fetch_from-IsFirst :
    (host : Host) (query : String) (nodes : List String)
    → IsFirst host query nodes (fetch_from host query nodes)
unfolding fetch_from
fetch_from-IsFirst host query [] = inl (tt, refl)
fetch_from-IsFirst host query (node ∷ rest) = elim (Option-cases (ask_node host query node)) [
  | inr (results, given) ↦
      subst (IsFirst host query (node ∷ rest))
        (sym (fetch_from-given host query node rest results given))
        (inr ([], node, rest, refl, tt, given))
  | inl nothing ↦
      subst (IsFirst host query (node ∷ rest)) (sym (fetch_from-none host query node rest nothing))
        (later nothing (fetch_from-IsFirst host query rest))
]
  where
    later :
        {results : List Result}
        → ask_node host query node ≡ none
        → IsFirst host query rest results
        → IsFirst host query (node ∷ rest) results
    later nothing (inl (all, empty)) = inl ((nothing, all), empty)
    later nothing (inr (before, chosen, after, split, unusable, given)) =
        inr (node ∷ before, chosen, after, ap (λ l. node ∷ l) split, (nothing, unusable), given)

-- For every query and whatever the nodes answer, `fetchFromNodes` returns the results of the first
-- search node whose answer can be read, in the order of the list, or the empty list where no node
-- gives such an answer; and each result that is returned has a title, a domain and a description.
pub fetch_from_nodes-IsFirst :
    (host : Host) (query : String)
    → IsFirst host query search_nodes (fetch_from_nodes host query)
      × All IsShown (fetch_from_nodes host query)
unfolding fetch_from_nodes
fetch_from_nodes-IsFirst host query =
    let first = fetch_from-IsFirst host query search_nodes in (first, shown first)
  where
    shown : {results : List Result} → IsFirst host query search_nodes results → All IsShown results
    shown (inl (all, empty)) = subst (All IsShown) (sym empty) tt
    shown {results} (inr (before, node, after, split, unusable, given)) =
        ask_node-IsShown host query node results given
