-- ===== src/Indexer/Kept.antt =====
-- What the events of other tasks do to the directory of a site.
use feedo.Base.{
  ℕ, ◌≡◌, ◌≢◌, refl, sym, subst, ◌∙◌, ap, List, [], ◌∷◌, Option, none, some, false, inl, inr,
  get_elem?, Bool-cases, Option-cases, All,
}
use feedo.Scan.{Codes}
use feedo.Indexer.{
  has, Site, Phase, queued, scraping, deploying, Queue, Event, started, scraped, executed, site_of,
  task_of, Reach, start, next, resumed,
}
use feedo.Indexer.Hosts.{IsHost}
use feedo.Indexer.Entries.{IsLogged}
use feedo.Indexer.Resume.{log_text, domains, IsNumbered, Distinct}
use feedo.Indexer.Steps.{Inv, Holds, held}
use feedo.Indexer.Runs.{Reach-Inv, resumed-Inv}
use feedo.Indexer.Folders.{
  Folders, begin_folder, queue_event, saved, Disk, advance_folder, step_folders, step_disk,
  DiskReach, idle, after,
}
use feedo.Indexer.Cleanup.{remove_folder-other}

module _ (hostname : Codes → Option Codes) (urls : List (Option Codes)) where
  -- No step but of the task itself removes the directory of a site that a task is at work on.
  step_folders-kept :
      (sites : List Site) (q : Queue) (folders : Folders) (event : Event) (i : ℕ) (d : Codes)
      → Inv sites q
      → Holds q i d
      → task_of hostname urls event ≢ i
      → step_folders hostname urls event q folders d ≡ folders d
  unfolding step_folders begin_folder advance_folder
  step_folders-kept sites q folders event i d inv mine other =
      elim (Option-cases (get_elem? q.tasks (task_of hostname urls event))) [
        | inl missing ↦ rw (missing, step_folders) refl
        | inr (phase, at) ↦ rw (at, step_folders) (by_phase event phase other at)
      ]
    where
      begun : (site : Option Codes) → begin_folder site q folders d ≡ folders d
      begun none = refl
      begun (some []) = refl
      begun (some (c ∷ domain)) = elim (Bool-cases (has q.processed (c ∷ domain))) [
        | inl known ↦ rw known refl
        | inr unknown ↦ rw unknown (
            remove_folder-other (c ∷ domain) d folders (λ same.
              let known = inv.busy_known i d mine in
              let here = subst (λ e. has q.processed e ≡ false) same unknown in cc))
      ]

      not_mine :
          (j : ℕ) (domain : Codes) (phase : Phase)
          → j ≢ i
          → get_elem? q.tasks j ≡ some phase
          → held phase ≡ some domain
          → domain ≢ d
      not_mine j domain phase apart at holds same =
          apart (inv.busy_alone j i d (phase, at, holds ∙ ap some same) mine)

      by_phase :
          (event : Event) (phase : Phase)
          → task_of hostname urls event ≢ i
          → get_elem? q.tasks (task_of hostname urls event) ≡ some phase
          → advance_folder hostname urls event phase q folders d ≡ folders d
      by_phase (started j) queued apart at = begun (site_of hostname urls j)
      by_phase (scraped j false) (scraping domain) apart at =
          remove_folder-other domain d folders (not_mine j domain (scraping domain) apart at refl)
      by_phase (executed j output writable) (deploying domain) apart at =
          remove_folder-other domain d folders (not_mine j domain (deploying domain) apart at refl)
      by_phase event phase apart at = refl

  -- The queue does not see what is written.
  saved_queue : (disk : Disk) (i : ℕ) → (step_disk hostname urls (saved i) disk).queue ≡ disk.queue
  unfolding step_disk
  saved_queue disk i = elim (Option-cases (get_elem? disk.queue.tasks i)) [
    | inl missing ↦ rw (missing, step_disk) refl
    | inr (phase, at) ↦ rw (at, step_disk) refl
  ]

  DiskReach-Reach :
      {disk₀ disk : Disk}
      → DiskReach hostname urls disk₀ disk
      → Reach hostname urls disk₀.queue disk.queue
  unfolding step_disk
  DiskReach-Reach idle = start
  DiskReach-Reach (after (queue_event event) r) = next event (DiskReach-Reach r)
  DiskReach-Reach {disk₀} (after {disk} (saved i) r) =
      subst (Reach hostname urls disk₀.queue) (sym (saved_queue disk i)) (DiskReach-Reach r)

  module _ (host_ok : (u h : Codes) → hostname u ≡ some h → IsHost h) (old : List Site)
      (protocols : List (Option Codes)) (logged : All IsLogged old)
      (distinct : Distinct (domains old)) (numbered : IsNumbered 1 old) (folders : Folders) where
    -- If the log holds the entries of sites that are well formed, distinct and numbered upwards
    -- from 1 or more, and a host name has only letters, digits, dots and dashes, then at every
    -- point of a run, no event but one of the task that is at work on a site removes or makes the
    -- directory of the site, the writing of files aside.
    pub DiskReach-step_folders :
        {disk : Disk} (event : Event) (i : ℕ) (d : Codes)
        → DiskReach hostname urls
            (record { queue = resumed (log_text old) protocols; folders = folders })
            disk
        → Holds disk.queue i d
        → task_of hostname urls event ≢ i
        → (step_disk hostname urls (queue_event event) disk).folders d ≡ disk.folders d
    unfolding step_disk
    DiskReach-step_folders {disk} event i d r mine other =
        let (sites, inv) =
          Reach-Inv hostname urls host_ok
            (old, resumed-Inv hostname urls host_ok old protocols logged distinct numbered)
            (DiskReach-Reach r) in
        step_folders-kept sites disk.queue disk.folders event i d inv mine other
