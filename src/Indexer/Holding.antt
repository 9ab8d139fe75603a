-- ===== src/Indexer/Holding.antt =====
-- scripts/indexer/index.js: what a step of `processSite` leaves of the other tasks.
use feedo.Base.{
  ℕ, ◌≡◌, ◌≢◌, sym, subst, ◌∙◌, ap, List, [], ◌∷◌, Option, none, some, Bool, inl, inr, get_elem?,
  set, get_elem?-set_ne, Bool-cases, Option-cases,
}
use feedo.Scan.{Codes, match_first}
use feedo.Indexer.{
  has, add, cid_pattern, Phase, scraping, returned, Queue, begin_site, end_site, deployment_failed,
}
use feedo.Indexer.Steps.{Holds, held}

-- A task that holds a domain is another than one that does not.
pub apart_from :
    (q : Queue) (i j : ℕ) (d : Codes) (phase : Phase)
    → get_elem? q.tasks j ≡ some phase
    → Holds q i d
    → held phase ≢ some d
    → j ≢ i
apart_from q i j d phase at (mine, there, holds) not_held same =
    let here = subst (λ k. get_elem? q.tasks k ≡ some phase) same at in
    let is : mine ≡ phase = cc in not_held (ap held (sym is) ∙ holds)

-- The phase of another task does not matter.
pub set_holds :
    (tasks : List Phase) (i j : ℕ) (d : Codes) (new : Phase)
    → j ≢ i
    → (phase : Phase) × (get_elem? tasks i ≡ some phase) × (held phase ≡ some d)
    → (phase : Phase) × (get_elem? (set tasks j new) i ≡ some phase) × (held phase ≡ some d)
set_holds tasks i j d new other (phase, at, holds) =
    (phase, get_elem?-set_ne tasks j i new other ∙ at, holds)

pub begin_site-Holds :
    (q : Queue) (i j : ℕ) (d : Codes) (site : Option Codes)
    → j ≢ i
    → Holds q i d
    → Holds (begin_site j site q) i d
unfolding begin_site add
begin_site-Holds q i j d none other mine = set_holds q.tasks i j d returned other mine
begin_site-Holds q i j d (some []) other mine = set_holds q.tasks i j d returned other mine
begin_site-Holds q i j d (some (c ∷ domain)) other mine =
    elim (Bool-cases (has q.processed (c ∷ domain))) [
      | inl known ↦ rw known (set_holds q.tasks i j d returned other mine)
      | inr unknown ↦ rw unknown (set_holds q.tasks i j d (scraping (c ∷ domain)) other mine)
    ]

pub end_site-Holds :
    (q : Queue) (i j : ℕ) (d domain : Codes) (output : Option (Codes × Codes)) (writable : Bool)
    → j ≢ i
    → Holds q i d
    → Holds (end_site j domain output writable q) i d
unfolding end_site
end_site-Holds q i j d domain none writable other mine = set_holds q.tasks i j d returned other mine
end_site-Holds q i j d domain (some output) writable other mine =
    let ended = set_holds q.tasks i j d returned other mine in
    elim (Bool-cases (deployment_failed output)) [
      | inl failed ↦ rw failed ended
      | inr fine ↦ elim (Option-cases (match_first cid_pattern output.0)) [
        | inl no_cid ↦ rw (fine, no_cid) ended
        | inr (cid, found) ↦ rw (fine, found) ended
      ]
    ]
