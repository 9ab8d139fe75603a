-- ===== src/Indexer/Runs.antt =====
-- The invariant of the queue over every run.
use feedo.Base.{
  ℕ, zero, suc, ◌≡◌, ◌≢◌, refl, sym, subst, ◌∙◌, ap, ◌≤◌, List, [], ◌∷◌, Option, none, some, Bool,
  true, false, inl, inr, get_elem?, arith, Bool-cases, Option-cases, All, map, take,
}
use feedo.Scan.{Codes, match_first}
use feedo.Indexer.{
  has, add, without_www, extract_domain, domain_of, site_of, Site, cid_pattern, Phase, queued,
  scraping, deploying, returned, Queue, Event, started, scraped, executed, put_task, begin_site,
  end_site, deployment_failed, advance_task, task_of, step, Reach, start, next, resumed, max_sites,
  same_text, load_checkpoints,
}
use feedo.Indexer.Hosts.{IsHost}
use feedo.Indexer.Entries.{IsLogged}
use feedo.Indexer.Inputs.{without_www-IsHost, match_first-IsCid}
use feedo.Indexer.Resume.{
  log_text, domains, last_number, IsNumbered, Distinct, load_checkpoints-log_text, same_text_refl,
}
use feedo.Indexer.Steps.{Inv, Holds, held, put_task-Inv, taken-Inv, counted-Inv, written-Inv}

has_more : (ds : List Codes) (d e : Codes) → has ds e ≡ true → has (d ∷ ds) e ≡ true
unfolding has
has_more ds d e h = elim (Bool-cases (same_text d e)) [
  | inl same ↦ rw same refl
  | inr other ↦ rw other h
]

module _ (hostname : Codes → Option Codes) (urls : List (Option Codes))
    (host_ok : (u h : Codes) → hostname u ≡ some h → IsHost h) where
  domain_of-IsHost : (url : Option Codes) (d : Codes) → domain_of hostname url ≡ some d → IsHost d
  unfolding domain_of extract_domain
  domain_of-IsHost none d e = cc
  domain_of-IsHost (some []) d e = cc
  domain_of-IsHost (some (c ∷ u)) d e = elim (Option-cases (hostname (c ∷ u))) [
    | inl bad ↦ let e' = rw (bad, domain_of, extract_domain) at e in cc
    | inr (h, is) ↦
        let e' = rw (is, domain_of, extract_domain) at e in
        let same : without_www h ≡ d = cc in
        subst IsHost same (without_www-IsHost h (host_ok (c ∷ u) h is))
  ]

  site_of-IsHost : (i : ℕ) (d : Codes) → site_of hostname urls i ≡ some d → IsHost d
  site_of-IsHost i d e = elim (Option-cases (get_elem? urls i)) [
    | inl missing ↦ let e' = rw (missing, site_of) at e in cc
    | inr (url, is) ↦ domain_of-IsHost url d (rw (is, site_of) at e)
  ]

  begin_site-Inv :
      (sites : List Site) (q : Queue) (i : ℕ) (o : Option Codes)
      → Inv sites q
      → get_elem? q.tasks i ≡ some queued
      → ((d : Codes) → o ≡ some d → IsHost d)
      → Inv sites (begin_site i o q)
  unfolding begin_site add
  begin_site-Inv sites q i none inv at host =
      put_task-Inv q i queued returned at (λ d h. h) sites inv
  begin_site-Inv sites q i (some []) inv at host =
      put_task-Inv q i queued returned at (λ d h. h) sites inv
  begin_site-Inv sites q i (some (c ∷ d)) inv at host =
      elim (Bool-cases (has q.processed (c ∷ d))) [
        | inl known ↦ rw known (put_task-Inv q i queued returned at (λ e h. h) sites inv)
        | inr unknown ↦
            rw unknown (taken-Inv sites q i (c ∷ d) inv unknown (host (c ∷ d) refl, omega arith))
      ]

  -- Some sites that the log has after a step.
  abbrev Kept : Queue → Type 0
  Kept q = (sites : List Site) × Inv sites q

  end_site-Inv :
      (sites : List Site) (q : Queue) (i : ℕ) (d : Codes) (o : Option (Codes × Codes))
      (writable : Bool)
      → Inv sites q
      → get_elem? q.tasks i ≡ some (deploying d)
      → Kept (end_site i d o writable q)
  unfolding end_site
  end_site-Inv sites q i d none writable inv at =
      (sites, put_task-Inv q i (deploying d) returned at (λ e h. cc) sites inv)
  end_site-Inv sites q i d (some output) writable inv at =
      let idle = put_task-Inv q i (deploying d) returned at (λ e h. cc) sites inv in
      elim (Bool-cases (deployment_failed output)) [
        | inl failed ↦ rw failed (sites, idle)
        | inr fine ↦ elim (Option-cases (match_first cid_pattern output.0)) [
          | inl no_cid ↦ rw (fine, no_cid) (sites, idle)
          | inr (cid, found) ↦
              let good = match_first-IsCid output.0 cid found in
              elim (Bool-cases writable) [
                | inl written ↦
                    rw (fine, found, written)
                      (_, written-Inv sites q i d cid inv (deploying d, at, refl) good.0 good.1)
                | inr refused ↦
                    rw (fine, found, refused)
                      (sites, counted-Inv sites (put_task i returned q) idle)
              ]
        ]
      ]

  advance_task-Inv :
      (sites : List Site) (q : Queue) (event : Event) (phase : Phase)
      → Inv sites q
      → get_elem? q.tasks (task_of hostname urls event) ≡ some phase
      → Kept (advance_task hostname urls event phase q)
  advance_task-Inv sites q (started i) queued inv at =
      (sites, begin_site-Inv sites q i (site_of hostname urls i) inv at (site_of-IsHost i))
  advance_task-Inv sites q (scraped i true) (scraping d) inv at =
      (sites, put_task-Inv q i (scraping d) (deploying d) at (λ e h. h) sites inv)
  advance_task-Inv sites q (scraped i false) (scraping d) inv at =
      (sites, put_task-Inv q i (scraping d) returned at (λ e h. cc) sites inv)
  advance_task-Inv sites q (executed i o writable) (deploying d) inv at =
      end_site-Inv sites q i d o writable inv at
  advance_task-Inv sites q event phase inv at = (sites, inv)

  step-Inv :
      (sites : List Site) (q : Queue) (event : Event)
      → Inv sites q
      → Kept (step hostname urls event q)
  unfolding step
  step-Inv sites q event inv =
      elim (Option-cases (get_elem? q.tasks (task_of hostname urls event))) [
        | inl missing ↦ rw (missing, step) (sites, inv)
        | inr (phase, at) ↦ rw (at, step) (advance_task-Inv sites q event phase inv at)
      ]

  pub Reach-Inv : {q₀ q : Queue} → Kept q₀ → Reach hostname urls q₀ q → Kept q
  Reach-Inv kept start = kept
  Reach-Inv kept (next event r) = let (sites, inv) = Reach-Inv kept r in step-Inv sites _ event inv

  no_work :
      (tasks : List (Option Codes)) (i : ℕ) (phase : Phase)
      → get_elem? (map (λ p. queued) tasks) i ≡ some phase
      → held phase ≡ none
  no_work [] i phase e = cc
  no_work (t ∷ tasks) zero phase e = let same : queued ≡ phase = cc in ap held (sym same)
  no_work (t ∷ tasks) (suc i) phase e = no_work tasks i phase e

  pub resumed-Inv :
      (old : List Site) (protocols : List (Option Codes))
      → All IsLogged old
      → Distinct (domains old)
      → IsNumbered 1 old
      → Inv old (resumed (log_text old) protocols)
  unfolding resumed
  resumed-Inv old protocols logged distinct numbered =
      let seen = load_checkpoints-log_text old logged distinct numbered in
      record {
        logs = refl;
        logged = logged;
        distinct = distinct;
        numbered = numbered;
        counted = subst (λ n. last_number 0 old ≤ n) (sym (ap (λ x. x.1) seen)) (omega arith);
        known =
            subst (λ ds. All (λ d. has ds d ≡ true) (domains old)) (sym (ap (λ x. x.0) seen))
              (all_seen (domains old));
        busy_known = λ i d h. nobody i d h;
        busy_named = λ i d h. nobody i d h;
        busy_apart = λ i d h. nobody i d h;
        busy_alone = λ i j d h l. nobody i d h;
      }
    where
      nobody : {A : Type 0} (i : ℕ) (d : Codes) → Holds (resumed (log_text old) protocols) i d → A
      nobody i d (phase, at, holds) = let idle = no_work (take max_sites protocols) i phase at in cc

      more_seen :
          (d : Codes) (es ds : List Codes)
          → All (λ e. has ds e ≡ true) es
          → All (λ e. has (d ∷ ds) e ≡ true) es
      more_seen d [] ds h = tt
      more_seen d (e ∷ es) ds (h, hs) = (has_more ds d e h, more_seen d es ds hs)

      all_seen : (ds : List Codes) → All (λ d. has ds d ≡ true) ds
      all_seen [] = tt
      all_seen (d ∷ ds) = (rw (has, same_text_refl d) refl, more_seen d ds ds (all_seen ds))

  module _ (old : List Site) (protocols : List (Option Codes)) (logged : All IsLogged old)
      (distinct : Distinct (domains old)) (numbered : IsNumbered 1 old) where
    abbrev Reached : Queue → Type 0
    Reached q = Reach hostname urls (resumed (log_text old) protocols) q

    -- If the log holds the entries of sites that are well formed, distinct and numbered upwards
    -- from 1 or more, and a host name has only letters, digits, dots and dashes, then at every
    -- point of a run, in whatever order its tasks go on and whichever writes of the log fail, the
    -- log is the entries of such sites, a restart that reads it finds their domains and the number
    -- of the last of them as the count, and that number is at most the count that the run has.
    pub Reach-load_checkpoints :
        {q : Queue}
        → Reached q
        → (sites : List Site) × (q.log ≡ log_text sites)
          × Distinct (domains sites)
          × IsNumbered 1 sites
          × (load_checkpoints q.log [] 0 ≡ (domains sites, last_number 0 sites))
          × (last_number 0 sites ≤ q.successful_count)
    Reach-load_checkpoints r =
        let (sites, inv) = Reach-Inv (old, resumed-Inv old protocols logged distinct numbered) r in
        (
          sites,
          inv.logs,
          inv.distinct,
          inv.numbered,
          ap (λ t. load_checkpoints t [] 0) inv.logs
              ∙ load_checkpoints-log_text sites inv.logged inv.distinct inv.numbered,
          inv.counted,
        )

    -- If the log holds the entries of sites that are well formed, distinct and numbered upwards
    -- from 1 or more, and a host name has only letters, digits, dots and dashes, then at every
    -- point of a run, in whatever order its tasks go on, no two tasks are at work on one domain,
    -- and none is at work on a domain that the log has.
    pub Reach-Holds :
        {q : Queue} (i j : ℕ) (d : Codes)
        → Reached q
        → Holds q i d
        → Holds q j d
        → (i ≡ j) × All (λ e. e ≢ d) (load_checkpoints q.log [] 0).0
    Reach-Holds {q} i j d r h l =
        let (sites, inv) = Reach-Inv (old, resumed-Inv old protocols logged distinct numbered) r in
        let loaded =
          ap (λ t. load_checkpoints t [] 0) inv.logs
          ∙ load_checkpoints-log_text sites inv.logged inv.distinct inv.numbered in
        (
          inv.busy_alone i j d h l,
          subst (All (λ e. e ≢ d)) (sym (ap (λ x. x.0) loaded)) (inv.busy_apart i d h),
        )
