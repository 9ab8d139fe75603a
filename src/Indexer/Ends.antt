-- ===== src/Indexer/Ends.antt =====
-- scripts/indexer/index.js: the waits of the tasks, all of which `Promise.all` awaits.
use feedo.Base.{
  ◌⊎◌, inl, inr, ℕ, zero, suc, ◌+◌, ◌*◌, ◌≤◌, ◌<◌, ◌≡◌, ◌≢◌, subst, refl, sym, ap, List, [], ◌∷◌,
  map, take, length, Option, none, some, Bool, true, false, if◌then◌else◌, get_elem?, set, arith,
  All, Bool-cases, Option-cases,
}
use feedo.Scan.{Codes, match_first}
use feedo.Indexer.{
  has, cid_pattern, Phase, queued, scraping, deploying, returned, Queue, Event, started, scraped,
  executed, begin_site, end_site, deployment_failed, site_of, advance_task, task_of, step, resumed,
  max_sites,
}

-- The waits that are left of a task.
abbrev waits_left : Phase → ℕ
waits_left queued = 3
waits_left (scraping domain) = 2
waits_left (deploying domain) = 1
waits_left returned = 0

abbrev all_left : List Phase → ℕ
all_left [] = 0
all_left (phase ∷ tasks) = waits_left phase + all_left tasks

-- Whether an event ends the wait of a task in this phase.
abbrev waits_for : Event → Phase → Bool
waits_for (started i) queued = true
waits_for (scraped i good) (scraping domain) = true
waits_for (executed i output writable) (deploying domain) = true
waits_for event phase = false

all_left-set :
    (tasks : List Phase) (i : ℕ) (old new : Phase)
    → get_elem? tasks i ≡ some old
    → all_left (set tasks i new) + waits_left old ≡ all_left tasks + waits_left new
all_left-set [] i old new at = cc
all_left-set (phase ∷ tasks) zero old new at =
    let is : phase ≡ old = cc in let same = ap waits_left is in omega arith
all_left-set (phase ∷ tasks) (suc i) old new at =
    let later = all_left-set tasks i old new at in omega arith

not_returned : (event : Event) → waits_for event returned ≢ true
not_returned (started i) h = cc
not_returned (scraped i good) h = cc
not_returned (executed i output writable) h = cc

all_left-take :
    (n : ℕ) (protocols : List (Option Codes))
    → all_left (map (λ p. queued) (take n protocols)) ≤ 3 * length protocols
all_left-take zero protocols = omega arith
all_left-take (suc n) [] = omega arith
all_left-take (suc n) (p ∷ protocols) = let later = all_left-take n protocols in omega arith

resumed-left :
    (log : Codes) (protocols : List (Option Codes))
    → all_left (resumed log protocols).tasks ≤ 3 * length protocols
unfolding resumed
resumed-left log protocols = all_left-take max_sites protocols

module _ (hostname : Codes → Option Codes) (urls : List (Option Codes)) where
  abbrev pub is_awaited : Event → Queue → Bool
  is_awaited event q = elim (get_elem? q.tasks (task_of hostname urls event)) [
    | none ↦ false
    | some phase ↦ waits_for event phase
  ]

  -- The queue after some events, and how many of them were awaited.
  abbrev pub run_events : List Event → Queue → Queue
  run_events [] q = q
  run_events (event ∷ events) q = run_events events (step hostname urls event q)

  abbrev pub awaited : List Event → Queue → ℕ
  awaited [] q = 0
  awaited (event ∷ events) q =
      let later = awaited events (step hostname urls event q) in
      if is_awaited event q then suc later else later

  begin_site-less :
      (q : Queue) (i : ℕ) (site : Option Codes)
      → get_elem? q.tasks i ≡ some queued
      → all_left (begin_site i site q).tasks < all_left q.tasks
  unfolding begin_site
  begin_site-less q i none at = let size = all_left-set q.tasks i queued returned at in omega arith
  begin_site-less q i (some []) at =
      let size = all_left-set q.tasks i queued returned at in omega arith
  begin_site-less q i (some (c ∷ domain)) at =
      let size = all_left-set q.tasks i queued returned at in
      let size' = all_left-set q.tasks i queued (scraping (c ∷ domain)) at in
      elim (Bool-cases (has q.processed (c ∷ domain))) [
        | inl known ↦ rw known (omega arith)
        | inr unknown ↦ rw unknown (omega arith)
      ]

  end_site-less :
      (q : Queue) (i : ℕ) (domain : Codes) (output : Option (Codes × Codes)) (writable : Bool)
      → get_elem? q.tasks i ≡ some (deploying domain)
      → all_left (end_site i domain output writable q).tasks < all_left q.tasks
  unfolding end_site
  end_site-less q i domain none writable at =
      let size = all_left-set q.tasks i (deploying domain) returned at in omega arith
  end_site-less q i domain (some output) writable at =
      let size = all_left-set q.tasks i (deploying domain) returned at in
      elim (Bool-cases (deployment_failed output)) [
        | inl failed ↦ rw failed (omega arith)
        | inr fine ↦ elim (Option-cases (match_first cid_pattern output.0)) [
          | inl no_cid ↦ rw (fine, no_cid) (omega arith)
          | inr (cid, found) ↦ rw (fine, found) (omega arith)
        ]
      ]

  advance_task-less :
      (q : Queue) (event : Event) (phase : Phase)
      → get_elem? q.tasks (task_of hostname urls event) ≡ some phase
      → waits_for event phase ≡ true
      → all_left (advance_task hostname urls event phase q).tasks < all_left q.tasks
  advance_task-less q (started i) queued at h = begin_site-less q i (site_of hostname urls i) at
  advance_task-less q (scraped i true) (scraping domain) at h =
      let size = all_left-set q.tasks i (scraping domain) (deploying domain) at in omega arith
  advance_task-less q (scraped i false) (scraping domain) at h =
      let size = all_left-set q.tasks i (scraping domain) returned at in omega arith
  advance_task-less q (executed i output writable) (deploying domain) at h =
      end_site-less q i domain output writable at
  advance_task-less q event phase at h = cc

  advance_task-same :
      (q : Queue) (event : Event) (phase : Phase)
      → waits_for event phase ≡ false
      → advance_task hostname urls event phase q ≡ q
  advance_task-same q (started i) queued h = cc
  advance_task-same q (scraped i true) (scraping domain) h = cc
  advance_task-same q (scraped i false) (scraping domain) h = cc
  advance_task-same q (executed i output writable) (deploying domain) h = cc
  advance_task-same q (scraped i true) phase h = refl
  advance_task-same q (scraped i false) phase h = refl
  advance_task-same q event phase h = refl

  -- An event that a task awaits takes one of the waits, any other changes nothing.
  step-left :
      (q : Queue) (event : Event)
      → ((is_awaited event q ≡ true)
          × (all_left (step hostname urls event q).tasks < all_left q.tasks))
        ⊎ ((is_awaited event q ≡ false) × (step hostname urls event q ≡ q))
  unfolding step
  step-left q event = elim (Option-cases (get_elem? q.tasks (task_of hostname urls event))) [
    | inl missing ↦ inr (rw (missing, is_awaited) refl, rw (missing, step) refl)
    | inr (phase, at) ↦ elim (Bool-cases (waits_for event phase)) [
      | inl waits ↦
          inl (rw (at, is_awaited) waits, rw (at, step) (advance_task-less q event phase at waits))
      | inr idle ↦
          inr (rw (at, is_awaited) idle, rw (at, step) (advance_task-same q event phase idle))
    ]
  ]

  awaited-left :
      (events : List Event) (q : Queue)
      → awaited events q + all_left (run_events events q).tasks ≤ all_left q.tasks
  awaited-left [] q = omega arith
  awaited-left (event ∷ events) q =
      let later = awaited-left events (step hostname urls event q) in
      elim (step-left q event) [
        | inl (waits, less) ↦ rw waits (omega arith)
        | inr (idle, same) ↦ let left = ap (λ q. all_left q.tasks) same in rw idle (omega arith)
      ]

  -- Each task has returned, or one awaits something.
  to_await :
      (i : ℕ) (phase : Phase)
      → (phase ≡ returned)
        ⊎ ((event : Event) × (task_of hostname urls event ≡ i) × (waits_for event phase ≡ true))
  to_await i queued = inr (started i, refl, refl)
  to_await i (scraping domain) = inr (scraped i true, refl, refl)
  to_await i (deploying domain) = inr (executed i none true, refl, refl)
  to_await i returned = inl refl

  find_waiting :
      (tasks : List Phase)
      → All (λ phase. phase ≡ returned) tasks
        ⊎ ((i : ℕ) × (phase : Phase) × (get_elem? tasks i ≡ some phase) × (phase ≢ returned))
  find_waiting [] = inl tt
  find_waiting (phase ∷ tasks) = elim (find_waiting tasks) [
    | inr (i, waiting, at, going) ↦ inr (suc i, waiting, at, going)
    | inl all ↦ elim (to_await 0 phase) [
      | inl ended ↦ inl (ended, all)
      | inr (event, mine, waits) ↦ inr (
        0,
        phase,
        refl,
        λ ended. let h = subst (λ p. waits_for event p ≡ true) ended waits in not_returned event h,
      )
    ]
  ]

  -- Whatever happens in whatever order, the events that a task awaits are at most three for each
  -- protocol, and either every task has returned or there is an event that a task awaits.
  pub run_events-ends :
      (log : Codes) (protocols : List (Option Codes)) (events : List Event)
      → (awaited events (resumed log protocols) ≤ 3 * length protocols)
        × (All (λ phase. phase ≡ returned) (run_events events (resumed log protocols)).tasks
            ⊎ ((event : Event) × (is_awaited event (run_events events (resumed log protocols))
                  ≡ true)))
  run_events-ends log protocols events =
      let q = resumed log protocols in
      let left = awaited-left events q in
      let bound = resumed-left log protocols in
      (
        omega arith,
        elim (find_waiting (run_events events q).tasks) [
          | inl all ↦ inl all
          | inr (i, phase, at, going) ↦ elim (to_await i phase) [
            | inl ended ↦ absurd (going ended)
            | inr (event, mine, waits) ↦
                let at' =
                  subst (λ k. get_elem? (run_events events q).tasks k ≡ some phase) (sym mine) at in
                inr (event, rw (at', is_awaited) waits)
          ]
        ],
      )
