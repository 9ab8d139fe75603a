-- ===== src/Indexer.antt =====
-- scripts/indexer/index.js: the queue of sites, each downloaded, deployed and written to the log
-- indexed_sites.md, from which a later run resumes.
mod Log
pub mod Hosts
pub mod Entries
pub mod Resume
pub mod Steps
pub mod Inputs
pub mod Runs
pub mod Folders
pub mod Ends
pub mod Deployed
pub mod Holding
pub mod Cleanup
pub mod Kept
pub mod Tests
unfoldable pub use Log.*
use feedo.Base.{
  ℕ, ◌+◌, ◌-◌, List, [], ◌∷◌, ◌++◌, Option, none, some, Bool, true, false, ◌&&◌, ◌||◌, map, length,
  take, get_elem?, set, ltb, leb, ◌==◌, not, if◌then◌else◌,
}
use feedo.Scan.{
  Codes, codes, strip, span, Pattern, bracketed, match_all, match_first, decimal, is_digit, value,
}

abbrev pub max_sites : ℕ
max_sites = 3000

-- `text.includes(part)`
unfoldable pub includes : Codes → Codes → Bool
includes [] part = elim (strip part []) [ some rest ↦ true | none ↦ false ]
includes (c ∷ s) part =
    let later = includes s part in elim (strip part (c ∷ s)) [ some rest ↦ true | none ↦ later ]

-- The domain of a host name: without the `www.` that it may start with.
unfoldable pub without_www : Codes → Codes
without_www hostname = elim (strip (codes "www.") hostname) [
  | some domain ↦ domain
  | none ↦ hostname
]

-- `hostname` is that of `new URL(…)`, with `none` where the constructor throws.
unfoldable pub extract_domain : (Codes → Option Codes) → Codes → Option Codes
unfolding without_www
extract_domain hostname url = elim (hostname url) [ none ↦ none | some h ↦ some (without_www h) ]

-- `\s`
abbrev pub is_space : ℕ → Bool
is_space c =
    (leb 9 c && leb c 13)
    || c == 32
    || c == 160
    || c == 0x1680
    || (leb 0x2000 c && leb c 0x200A)
    || c == 0x2028
    || c == 0x2029
    || c == 0x202F
    || c == 0x205F
    || c == 0x3000
    || c == 0xFEFF

-- `[a-f0-9]` where case is ignored
abbrev pub is_hex : ℕ → Bool
is_hex c = is_digit c || (leb b'a' c && leb c b'f') || (leb b'A' c && leb c b'F')

abbrev pub is_either : ℕ → ℕ → ℕ → Bool
is_either upper lower c = c == upper || c == lower

abbrev pub not_empty : Codes → Option (Codes × ℕ)
not_empty [] = none
not_empty (c ∷ s) = some (c ∷ s, 0)

abbrev pub after_spaces : Codes × Codes → Option (Codes × ℕ)
after_spaces ([], rest) = none
after_spaces (c ∷ spaces, rest) = not_empty (span is_hex rest).0

-- `/CID:\s+([a-f0-9]+)/i`
unfoldable pub cid_pattern : Pattern
cid_pattern (a ∷ b ∷ c ∷ d ∷ s) =
    if is_either b'C' b'c' a && is_either b'I' b'i' b && is_either b'D' b'd' c && d == b':'
    then after_spaces (span is_space s)
    else none
cid_pattern _ = none

-- Where a task is: waiting in the queue, or at an `await`, or returned.
pub data Phase : Type 0 where
  queued : Phase
  scraping : Codes → Phase
  deploying : Codes → Phase
  returned : Phase

-- `processedDomains`, `successfulCount`, the log file (empty where there is none) and the tasks.
pub record Queue : Type 0 where
  pub processed : List Codes
  pub successful_count : ℕ
  pub log : Codes
  pub tasks : List Phase

-- What ends a wait: the queue starts a task, its download ends, its command ends with a standard
-- output and error, or is killed. The last comes with whether the log can be written then.
pub data Event : Type 0 where
  started : ℕ → Event
  scraped : ℕ → Bool → Event
  executed : ℕ → Option (Codes × Codes) → Bool → Event

abbrev pub put_task : ℕ → Phase → Queue → Queue
put_task i phase q = record q { tasks = set q.tasks i phase }

-- The start of `processSite`, up to the download.
unfoldable pub begin_site : ℕ → Option Codes → Queue → Queue
unfolding has add
begin_site i none q = put_task i returned q
begin_site i (some []) q = put_task i returned q
begin_site i (some (c ∷ domain)) q =
    if has q.processed (c ∷ domain) then put_task i returned q else record q {
      processed = add q.processed (c ∷ domain);
      tasks = set q.tasks i (scraping (c ∷ domain));
    }

abbrev pub deployment_failed : Codes × Codes → Bool
deployment_failed (stdout, stderr) =
    includes stdout (codes "Deployment failed") || includes stderr (codes "Deployment failed")

-- The end of `processSite`, behind the command. A failure is only reported, also that of
-- `appendFileSync`, which comes behind `successfulCount++`.
unfoldable pub end_site : ℕ → Codes → Option (Codes × Codes) → Bool → Queue → Queue
unfolding md_log includes cid_pattern
end_site i domain none writable q = put_task i returned q
end_site i domain (some output) writable q =
    if deployment_failed output
    then put_task i returned q
    else elim (match_first cid_pattern output.0) [
      | none ↦ put_task i returned q
      | some cid ↦ record q {
        successful_count = q.successful_count + 1;
        log =
            if writable
            then q.log
              ++ md_log (record { number = q.successful_count + 1; domain = domain; cid = cid }) []
            else q.log;
        tasks = set q.tasks i returned;
      }
    ]

-- The domain of a protocol, `none` where its `url` is not set or no URL.
unfoldable pub domain_of : (Codes → Option Codes) → Option Codes → Option Codes
unfolding extract_domain
domain_of hostname none = none
domain_of hostname (some []) = none
domain_of hostname (some (c ∷ url)) = extract_domain hostname (c ∷ url)

module _ (hostname : Codes → Option Codes) (urls : List (Option Codes)) where
  abbrev pub site_of : ℕ → Option Codes
  site_of i = elim (get_elem? urls i) [ none ↦ none | some url ↦ domain_of hostname url ]

  abbrev pub advance_task : Event → Phase → Queue → Queue
  advance_task (started i) queued q = begin_site i (site_of i) q
  advance_task (scraped i true) (scraping domain) q = put_task i (deploying domain) q
  advance_task (scraped i false) (scraping domain) q = put_task i returned q
  advance_task (executed i output writable) (deploying domain) q =
      end_site i domain output writable q
  advance_task event phase q = q

  abbrev pub task_of : Event → ℕ
  task_of (started i) = i
  task_of (scraped i good) = i
  task_of (executed i output writable) = i

  -- What runs between two waits. An event that no task waits for changes nothing.
  unfoldable pub step : Event → Queue → Queue
  unfolding begin_site end_site domain_of
  step event q = elim (get_elem? q.tasks (task_of event)) [
    | none ↦ q
    | some phase ↦ advance_task event phase q
  ]

  -- The queues that a run can come to, in whatever order the waits end.
  pub data Reach (q₀ : Queue) : Queue → Type 0 where
    start : Reach q₀ q₀
    next : {q : Queue} (event : Event) → Reach q₀ q → Reach q₀ (step event q)

-- The queue when `main` has made it, for the log that is found and the list of protocols.
unfoldable pub resumed : Codes → List (Option Codes) → Queue
unfolding load_checkpoints
resumed log protocols =
    let (processed, count) = load_checkpoints log [] 0 in
    record {
      processed = processed;
      successful_count = count;
      log = log;
      tasks = map (λ p. queued) (take max_sites protocols);
    }
