-- ===== src/Benchmark/Tests.antt =====
-- Three queries, of which the second fails.
use feedo.Base.{◌≡◌, refl, ℕ, String, [], ◌∷◌, Option, none, some, true, str_eq, if◌then◌else◌}
use feedo.Json.{null}
use feedo.Benchmark.{Fetched, initial_stats, run_benchmark, run_queries, fetch_outcome, average}
use feedo.Benchmark.Summary.{IsBounded, durations, sum, run_benchmark-IsBounded}

abbrev outcome : String → Option ℕ
outcome q = if str_eq q "dao" then none else if str_eq q "nft" then some 7 else some 3

stats_test :
    run_queries outcome ("nft" ∷ "dao" ∷ "ibc" ∷ []) initial_stats
    ≡ record { success_count = 2; total_time = 10; min_time = some 3; max_time = 7 }
unfolding run_queries
stats_test = refl

no_average_test : average (run_queries outcome ("dao" ∷ []) initial_stats) ≡ none
unfolding run_queries average
no_average_test = refl

abbrev fetch : String → Option Fetched
fetch url = some (record { ok = true; body = some null; duration = 4 })

run_benchmark-IsBounded_test :
    ((run_benchmark fetch ("nft" ∷ "dao" ∷ [])).success_count ≡ 2)
    × ((run_benchmark fetch ("nft" ∷ "dao" ∷ [])).total_time ≡ 8)
    × IsBounded (run_benchmark fetch ("nft" ∷ "dao" ∷ []))
unfolding durations sum fetch_outcome
run_benchmark-IsBounded_test = run_benchmark-IsBounded fetch ("nft" ∷ "dao" ∷ [])
