-- ===== src/Benchmark.antt =====
-- scripts/benchmark.js and scripts/benchmark.mjs: the sequential run of the queries and its numbers.
pub mod Summary
pub mod Tests
use feedo.Base.{
  ℕ, ◌+◌, ◌==◌, ltb, String, ◌<>◌, List, [], ◌∷◌, Option, none, some, Bool, if◌then◌else◌,
}
use feedo.Text.{encode_uri_component}
use feedo.Json.{Json}

-- The variables of `runBenchmark`. A time is a number of clock ticks; `none` stands for Infinity.
pub record Stats : Type 0 where
  pub success_count : ℕ
  pub total_time : ℕ
  pub min_time : Option ℕ
  pub max_time : ℕ

abbrev pub initial_stats : Stats
initial_stats = record { success_count = 0; total_time = 0; min_time = none; max_time = 0 }

-- `if (duration < minTime) minTime = duration`
abbrev pub lower : ℕ → Option ℕ → Option ℕ
lower duration none = some duration
lower duration (some least) = if ltb duration least then some duration else some least

-- `if (duration > maxTime) maxTime = duration`
abbrev pub higher : ℕ → ℕ → ℕ
higher duration most = if ltb most duration then duration else most

-- One round of the loop, with the duration of the request, or `none` where it fails.
unfoldable pub run_query : Option ℕ → Stats → Stats
run_query none stats = stats
run_query (some duration) stats = record {
  success_count = stats.success_count + 1;
  total_time = stats.total_time + duration;
  min_time = lower duration stats.min_time;
  max_time = higher duration stats.max_time;
}

unfoldable pub run_queries : (String → Option ℕ) → List String → Stats → Stats
unfolding run_query
run_queries outcome [] stats = stats
run_queries outcome (q ∷ queries) stats = run_queries outcome queries (run_query (outcome q) stats)

-- `totalTime / successCount` as a fraction: `none` is the NaN of 0 / 0.
unfoldable pub average : Stats → Option (ℕ × ℕ)
average stats =
    if stats.success_count == 0 then none else some (stats.total_time, stats.success_count)

-- The module version asks over `fetch`: a request counts if its answer is ok and parses.
pub record Fetched : Type 0 where
  pub ok : Bool
  pub body : Option Json
  pub duration : ℕ

abbrev pub benchmark_url : String → String
benchmark_url q =
    "http://178.18.253.94:8000/query?text="
    <> encode_uri_component q
    <> "&limit=50&item_type=website"

-- What the `try` block of the module version makes of an answer; `none` is a failed `fetch`.
unfoldable pub fetch_outcome : Option Fetched → Option ℕ
fetch_outcome none = none
fetch_outcome (some answer) =
    let parsed = elim answer.body as (λ x. Option ℕ) [
      | none ↦ none
      | some v ↦ some answer.duration
    ] in
    if answer.ok then parsed else none

unfoldable pub run_benchmark : (String → Option Fetched) → List String → Stats
unfolding run_queries fetch_outcome
run_benchmark fetch queries =
    run_queries (λ q. fetch_outcome (fetch (benchmark_url q))) queries initial_stats
