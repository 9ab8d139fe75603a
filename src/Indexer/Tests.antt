-- ===== src/Indexer/Tests.antt =====
-- Two protocols of one domain, after a run that has deployed another site.
use feedo.Base.{
  false, ◌+◌, ◌≤◌, ◌⊎◌, ℕ, subst, ◌≡◌, ◌≢◌, refl, List, [], ◌∷◌, ◌++◌, Option, none, some, true,
  All, arith,
}
use feedo.Scan.{match_first, Codes, codes, digits}
use feedo.Indexer.{
  Site, Queue, started, scraped, executed, step, Reach, start, next, resumed, feedo_domain,
  load_checkpoints, scraping, returned, md_log, same_text, Event,
}
use feedo.Indexer.Hosts.{IsHost, feedo_domain_same}
use feedo.Indexer.Entries.{IsLogged}
use feedo.Indexer.Resume.{
  log_text, domains, last_number, Distinct, IsNumbered, load_checkpoints-log_text,
}
use feedo.Indexer.Steps.{Holds}
use feedo.Indexer.Folders.{
  Folders, Disk, queue_event, saved, save_file, make_folder, step_folders, step_disk, DiskReach,
  idle, after,
}
use feedo.Indexer.Cleanup.{DiskReach-IsKnown}
use feedo.Indexer.Kept.{DiskReach-step_folders}
use feedo.Indexer.Deployed.{with_deployed, step-load_checkpoints}
use feedo.Indexer.Ends.{is_awaited, run_events, awaited, run_events-ends}
use feedo.Indexer.Runs.{Reach-load_checkpoints, Reach-Holds}

abbrev hostname : Codes → Option Codes
hostname url = some (codes "www.a.io")

hostname-IsHost : (u h : Codes) → hostname u ≡ some h → IsHost h
hostname-IsHost u h e =
    let same : codes "www.a.io" ≡ h = cc in
    subst IsHost same (refl, (refl, (refl, (refl, (refl, (refl, (refl, (refl, tt))))))))

abbrev urls : List (Option Codes)
urls = some (codes "https://www.a.io/x") ∷ some (codes "https://www.a.io") ∷ none ∷ []

abbrev old : List Site
old = record { number = 1; domain = codes "b.io"; cid = codes "c1" } ∷ []

old-IsLogged : All IsLogged old
old-IsLogged = (
  record {
    host = (refl, (refl, (refl, (refl, tt))));
    named = omega arith;
    hex = (refl, (refl, tt));
    found = omega arith;
  },
  tt,
)

abbrev first : Queue
first = resumed (log_text old) urls

abbrev both_started : Queue
both_started = step hostname urls (started 1) (step hostname urls (started 0) first)

abbrev deployed : Queue
deployed =
    step hostname urls (executed 0 (some (codes "ok\nCID:  f00d", [])) true)
      (step hostname urls (scraped 0 true) both_started)

both_started_reached : Reach hostname urls first both_started
both_started_reached = next (started 1) (next (started 0) start)

deployed_reached : Reach hostname urls first deployed
deployed_reached =
    next (executed 0 (some (codes "ok\nCID:  f00d", [])) true)
      (next (scraped 0 true) both_started_reached)

log_test :
    load_checkpoints
      (log_text (old ++ record { number = 2; domain = codes "a.io"; cid = codes "f00d" } ∷ []))
      []
      0
    ≡ (codes "b.io" ∷ codes "a.io" ∷ [], 2)
unfolding load_checkpoints log_text md_log digits
log_test = refl

Reach-load_checkpoints_example :
    (sites : List Site) × (deployed.log ≡ log_text sites)
    × Distinct (domains sites)
    × IsNumbered 1 sites
    × (load_checkpoints deployed.log [] 0 ≡ (domains sites, last_number 0 sites))
    × (last_number 0 sites ≤ deployed.successful_count)
Reach-load_checkpoints_example =
    Reach-load_checkpoints hostname urls hostname-IsHost old urls old-IsLogged (tt, tt)
      (omega arith, tt) deployed_reached

Holds-first : Holds both_started 0 (codes "a.io")
unfolding step resumed log_text digits
Holds-first = (scraping (codes "a.io"), refl, refl)

Reach-Holds_example :
    (◌≡◌ {A = ℕ} 0 0) × All (λ e. e ≢ codes "a.io") (load_checkpoints both_started.log [] 0).0
Reach-Holds_example =
    Reach-Holds hostname urls hostname-IsHost old urls old-IsLogged (tt, tt) (omega arith, tt) 0 0
      (codes "a.io") both_started_reached Holds-first Holds-first

feedo_domain_same_example : feedo_domain (codes "uni.org") ≡ feedo_domain (codes "uni.com")
feedo_domain_same_example = feedo_domain_same (codes "uni") (codes "org") (codes "com") refl refl

load_checkpoints-log_text_example : load_checkpoints (log_text old) [] 0 ≡ (domains old, 1)
load_checkpoints-log_text_example =
    load_checkpoints-log_text old old-IsLogged (tt, tt) (omega arith, tt)

-- A directory that an earlier run left.
abbrev left : Folders
left d = same_text (codes "z.io") d

abbrev disk : Disk
disk = record { queue = first; folders = left }

abbrev disk_saved : Disk
disk_saved =
    step_disk hostname urls (saved 0) (step_disk hostname urls (queue_event (started 0)) disk)

disk_saved_reached : DiskReach hostname urls disk disk_saved
disk_saved_reached = after (saved 0) (after (queue_event (started 0)) idle)

DiskReach-IsKnown_example :
    ((i : ℕ) × Holds disk_saved.queue i (codes "a.io")) ⊎ (left (codes "a.io") ≡ true)
unfolding step_disk step step_folders resumed log_text digits save_file make_folder
DiskReach-IsKnown_example = DiskReach-IsKnown hostname urls (codes "a.io") disk_saved_reached refl

Holds-disk_saved : Holds disk_saved.queue 0 (codes "a.io")
unfolding step_disk step step_folders resumed log_text digits
Holds-disk_saved = (scraping (codes "a.io"), refl, refl)

DiskReach-step_folders_example :
    (step_disk hostname urls (queue_event (started 1)) disk_saved).folders (codes "a.io")
    ≡ disk_saved.folders (codes "a.io")
DiskReach-step_folders_example =
    DiskReach-step_folders hostname urls hostname-IsHost old urls old-IsLogged (tt, tt)
      (omega arith, tt) left (started 1) 0 (codes "a.io") disk_saved_reached Holds-disk_saved
      (λ e. absurd (omega arith))

abbrev scraped_site : Queue
scraped_site = step hostname urls (scraped 0 true) both_started

abbrev output : Codes × Codes
output = (codes "ok\nCID:  f00d", [])

step-load_checkpoints_example :
    let after = step hostname urls (executed 0 (some output) false) scraped_site in
    (after.successful_count ≡ scraped_site.successful_count + 1)
    × (load_checkpoints after.log [] 0
        ≡ with_deployed false
            (codes "a.io")
            after.successful_count
            (load_checkpoints scraped_site.log [] 0))
unfolding step resumed log_text digits match_first
step-load_checkpoints_example =
    step-load_checkpoints hostname urls hostname-IsHost old urls old-IsLogged (tt, tt)
      (omega arith, tt) 0 (codes "a.io") (codes "f00d") output false
      (next (scraped 0 true) both_started_reached) refl refl refl

abbrev events : List Event
events =
    started 0
    ∷ executed 0 none true
    ∷ scraped 0 true
    ∷ started 1
    ∷ executed 0 (some output) true
    ∷ []

run_events-ends_example :
    (awaited hostname urls events (resumed (log_text old) urls) ≤ 9)
    × (All
          (λ phase. phase ≡ returned)
          (run_events hostname urls events (resumed (log_text old) urls)).tasks
        ⊎ ((event : Event) × (is_awaited hostname urls event
                (run_events hostname urls events (resumed (log_text old) urls))
              ≡ true)))
run_events-ends_example = run_events-ends hostname urls (log_text old) urls events
