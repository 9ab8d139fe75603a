-- ===== src/Indexer/Folders.antt =====
-- scripts/indexer/index.js: the directories of sites below `temp`, which `processSite` removes
-- before a download and at its end. A directory is named by its domain.
use feedo.Base.{ℕ, List, [], ◌∷◌, Option, none, some, Bool, true, false, if◌then◌else◌, get_elem?}
use feedo.Scan.{Codes}
use feedo.Indexer.{
  same_text, has, Phase, queued, scraping, deploying, Queue, Event, started, scraped, executed,
  site_of, task_of, step,
}

-- The domains whose directory exists.
abbrev pub Folders : Type 0
Folders = Codes → Bool

-- `if (fs.existsSync(siteDir)) fs.rmSync(siteDir, …)`
unfoldable pub remove_folder : Codes → Folders → Folders
remove_folder domain folders d = if same_text domain d then false else folders d

-- What the scraper does when it writes a file.
unfoldable pub make_folder : Codes → Folders → Folders
make_folder domain folders d = if same_text domain d then true else folders d

-- The start of `processSite`: a site that is taken has its old directory removed.
unfoldable pub begin_folder : Option Codes → Queue → Folders → Folders
unfolding has remove_folder
begin_folder none q folders = folders
begin_folder (some []) q folders = folders
begin_folder (some (c ∷ domain)) q folders =
    if has q.processed (c ∷ domain) then folders else remove_folder (c ∷ domain) folders

-- What goes on besides the queue: the scraper writes files for a task.
pub data DiskEvent : Type 0 where
  queue_event : Event → DiskEvent
  saved : ℕ → DiskEvent

pub record Disk : Type 0 where
  pub queue : Queue
  pub folders : Folders

-- A file that the scraper writes for a task in this phase.
unfoldable pub save_file : Phase → Folders → Folders
unfolding make_folder
save_file (scraping domain) folders = make_folder domain folders
save_file phase folders = folders

module _ (hostname : Codes → Option Codes) (urls : List (Option Codes)) where
  -- The end of `processSite`, on success and on failure, removes the directory.
  unfoldable pub advance_folder : Event → Phase → Queue → Folders → Folders
  unfolding begin_folder remove_folder
  advance_folder (started i) queued q folders = begin_folder (site_of hostname urls i) q folders
  advance_folder (scraped i false) (scraping domain) q folders = remove_folder domain folders
  advance_folder (executed i output writable) (deploying domain) q folders =
      remove_folder domain folders
  advance_folder event phase q folders = folders

  unfoldable pub step_folders : Event → Queue → Folders → Folders
  unfolding advance_folder
  step_folders event q folders = elim (get_elem? q.tasks (task_of hostname urls event)) [
    | none ↦ folders
    | some phase ↦ advance_folder event phase q folders
  ]

  unfoldable pub step_disk : DiskEvent → Disk → Disk
  unfolding step step_folders save_file
  step_disk (queue_event event) disk = record {
    queue = step hostname urls event disk.queue;
    folders = step_folders event disk.queue disk.folders;
  }
  step_disk (saved i) disk = elim (get_elem? disk.queue.tasks i) [
    | none ↦ disk
    | some phase ↦ record disk { folders = save_file phase disk.folders }
  ]

  -- What a run can come to, in whatever order its waits end and files are written.
  pub data DiskReach (disk₀ : Disk) : Disk → Type 0 where
    idle : DiskReach disk₀ disk₀
    after :
        {disk : Disk} (event : DiskEvent)
        → DiskReach disk₀ disk
        → DiskReach disk₀ (step_disk event disk)
