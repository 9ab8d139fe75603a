-- ===== src/Indexer/Cleanup.antt =====
-- The directories that a run of the indexer leaves.
use feedo.Base.{
  ◌⊎◌, ℕ, ◌≡◌, ◌≢◌, refl, sym, subst, ◌∙◌, ap, List, [], ◌∷◌, Option, none, some, true, false, ◌==◌,
  inl, inr, get_elem?, set, get_elem?-set_self, lt-length_of_get_elem?, arith, Bool-cases,
  Option-cases,
}
use feedo.Scan.{Codes}
use feedo.Indexer.{
  same_text, has, Phase, queued, scraping, deploying, returned, Queue, Event, started, scraped,
  executed, site_of, advance_task, task_of, step,
}
use feedo.Indexer.Resume.{same_text_refl, same_text_sound}
use feedo.Indexer.Steps.{Holds, held}
use feedo.Indexer.Holding.{apart_from, set_holds, begin_site-Holds, end_site-Holds}
use feedo.Indexer.Folders.{
  Folders, remove_folder, make_folder, begin_folder, queue_event, saved, Disk, save_file,
  advance_folder, step_folders, step_disk, DiskReach, idle, after,
}

-- A directory that is there after a removal was there before, and is another.
remove_folder-true :
    (domain d : Codes) (folders : Folders)
    → remove_folder domain folders d ≡ true
    → (folders d ≡ true) × (same_text domain d ≡ false)
unfolding remove_folder
remove_folder-true domain d folders h = elim (Bool-cases (same_text domain d)) [
  | inl same ↦ let gone = rw (same, remove_folder) at h in cc
  | inr other ↦ (rw (other, remove_folder) at h, other)
]

pub remove_folder-other :
    (domain d : Codes) (folders : Folders) → domain ≢ d → remove_folder domain folders d ≡ folders d
unfolding remove_folder
remove_folder-other domain d folders other = elim (Bool-cases (same_text domain d)) [
  | inl same ↦ absurd (other (same_text_sound domain d same))
  | inr apart ↦ rw apart refl
]

begin_folder-true :
    (q : Queue) (folders : Folders) (site : Option Codes) (d : Codes)
    → begin_folder site q folders d ≡ true
    → folders d ≡ true
unfolding begin_folder
begin_folder-true q folders none d there = there
begin_folder-true q folders (some []) d there = there
begin_folder-true q folders (some (c ∷ domain)) d there =
    elim (Bool-cases (has q.processed (c ∷ domain))) [
      | inl known ↦ rw known at there
      | inr unknown ↦ (remove_folder-true (c ∷ domain) d folders (rw unknown at there)).0
    ]

removed :
    (domain d : Codes) (folders : Folders)
    → remove_folder domain folders d ≡ true
    → ◌≢◌ {A = Option Codes} (some domain) (some d)
removed domain d folders there e =
    let (_, other) = remove_folder-true domain d folders there in
    let same : domain ≡ d = cc in
    let is = subst (λ x. same_text domain x ≡ true) same (same_text_refl domain) in cc

module _ (hostname : Codes → Option Codes) (urls : List (Option Codes)) where
  -- A task that is at work on a site goes on, unless the site's directory is removed.
  advance-Holds :
      (q : Queue) (folders : Folders) (event : Event) (phase : Phase) (i : ℕ) (d : Codes)
      → get_elem? q.tasks (task_of hostname urls event) ≡ some phase
      → Holds q i d
      → advance_folder hostname urls event phase q folders d ≡ true
      → Holds (advance_task hostname urls event phase q) i d
  unfolding advance_folder
  advance-Holds q folders (started j) queued i d at mine there =
      begin_site-Holds q i j d (site_of hostname urls j)
        (apart_from q i j d queued at mine (λ e. cc)) mine
  advance-Holds q folders (scraped j true) (scraping domain) i d at (phase, here, holds) there =
      elim (Bool-cases (j == i)) [
        | inl same ↦
            let is : j ≡ i = ground arith in
            let at' = subst (λ k. get_elem? q.tasks k ≡ some (scraping domain)) is at in
            let one : phase ≡ scraping domain = cc in
            let named = ap held (sym one) ∙ holds in
            (
              deploying domain,
              subst (λ k. get_elem? (set q.tasks j (deploying domain)) k ≡ some (deploying domain))
                  is
                  (get_elem?-set_self q.tasks j (deploying domain)
                    (lt-length_of_get_elem? q.tasks j (scraping domain) at)),
              named,
            )
        | inr apart ↦
            set_holds q.tasks i j d (deploying domain) (λ e. absurd (ground arith))
              (phase, here, holds)
      ]
  advance-Holds q folders (scraped j false) (scraping domain) i d at mine there =
      set_holds q.tasks i j d returned
        (apart_from q i j d (scraping domain) at mine (removed domain d folders there)) mine
  advance-Holds q folders (executed j output writable) (deploying domain) i d at mine there =
      end_site-Holds q i j d domain output writable
        (apart_from q i j d (deploying domain) at mine (removed domain d folders there)) mine
  advance-Holds q folders event phase i d at mine there = mine

  -- The queue makes no directory.
  advance_folder-true :
      (q : Queue) (folders : Folders) (event : Event) (phase : Phase) (d : Codes)
      → advance_folder hostname urls event phase q folders d ≡ true
      → folders d ≡ true
  unfolding advance_folder
  advance_folder-true q folders (started j) queued d there =
      begin_folder-true q folders (site_of hostname urls j) d there
  advance_folder-true q folders (scraped j false) (scraping domain) d there =
      (remove_folder-true domain d folders there).0
  advance_folder-true q folders (executed j output writable) (deploying domain) d there =
      (remove_folder-true domain d folders there).0
  advance_folder-true q folders event phase d there = there

  -- A directory is that of a task at work, or of before.
  abbrev IsKnown : Disk → Disk → Codes → Type 0
  IsKnown disk₀ disk d = ((i : ℕ) × Holds disk.queue i d) ⊎ (disk₀.folders d ≡ true)

  step-IsKnown :
      (disk₀ disk : Disk) (event : Event) (d : Codes)
      → (disk.folders d ≡ true → IsKnown disk₀ disk d)
      → (step_disk hostname urls (queue_event event) disk).folders d ≡ true
      → IsKnown disk₀ (step_disk hostname urls (queue_event event) disk) d
  unfolding step_disk step step_folders
  step-IsKnown disk₀ disk event d before there =
      elim (Option-cases (get_elem? disk.queue.tasks (task_of hostname urls event))) [
        | inl missing ↦
            let still = rw (missing, step_folders) at there in rw (missing, step) (before still)
        | inr (phase, at) ↦
            let still = rw (at, step_folders) at there in
            elim (before (advance_folder-true disk.queue disk.folders event phase d still)) [
              | inl (i, mine) ↦
                  rw (at, step)
                    (inl (i, advance-Holds disk.queue disk.folders event phase i d at mine still))
              | inr old ↦ inr old
            ]
      ]

  save_file-IsKnown :
      (disk₀ disk : Disk) (i : ℕ) (phase : Phase) (d : Codes)
      → get_elem? disk.queue.tasks i ≡ some phase
      → (disk.folders d ≡ true → IsKnown disk₀ disk d)
      → save_file phase disk.folders d ≡ true
      → IsKnown disk₀ disk d
  unfolding save_file make_folder
  save_file-IsKnown disk₀ disk i (scraping domain) d at before there =
      elim (Bool-cases (same_text domain d)) [
        | inl same ↦ inl (i, (scraping domain, at, ap some (same_text_sound domain d same)))
        | inr other ↦ before (rw (other, make_folder) at there)
      ]
  save_file-IsKnown disk₀ disk i phase d at before there = before there

  saved-IsKnown :
      (disk₀ disk : Disk) (i : ℕ) (d : Codes)
      → (disk.folders d ≡ true → IsKnown disk₀ disk d)
      → (step_disk hostname urls (saved i) disk).folders d ≡ true
      → IsKnown disk₀ (step_disk hostname urls (saved i) disk) d
  unfolding step_disk
  saved-IsKnown disk₀ disk i d before there = elim (Option-cases (get_elem? disk.queue.tasks i)) [
    | inl missing ↦ rw (missing, step_disk) (before (rw (missing, step_disk) at there))
    | inr (phase, at) ↦
        rw (at, step_disk)
          (save_file-IsKnown disk₀ disk i phase d at before (rw (at, step_disk) at there))
  ]

  -- At every point of a run, in whatever order its tasks go on and files are written, a directory
  -- below temp belongs to a site that a task is at work on, or was there before the run.
  pub DiskReach-IsKnown :
      {disk₀ disk : Disk} (d : Codes)
      → DiskReach hostname urls disk₀ disk
      → disk.folders d ≡ true
      → ((i : ℕ) × Holds disk.queue i d) ⊎ (disk₀.folders d ≡ true)
  DiskReach-IsKnown d idle there = inr there
  DiskReach-IsKnown {disk₀} d (after {disk} (queue_event event) r) there =
      step-IsKnown disk₀ disk event d (DiskReach-IsKnown d r) there
  DiskReach-IsKnown {disk₀} d (after {disk} (saved i) r) there =
      saved-IsKnown disk₀ disk i d (DiskReach-IsKnown d r) there
