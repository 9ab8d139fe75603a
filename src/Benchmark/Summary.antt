-- ===== src/Benchmark/Summary.antt =====
-- The numbers that are printed at the end are those of the successful requests.
use feedo.Base.{
  ◌≡◌, refl, ap, ◌∙◌, ℕ, ◌+◌, ◌*◌, ◌≤◌, ltb, ltb→lt, ltb→le, String, List, [], ◌∷◌, Option, none,
  some, ◌⊎◌, inl, inr, length, arith, Bool-cases,
}
use native.Mathlib.Nat.{mul-le-mul_right, mul-add, mul-one}
use feedo.Benchmark.{
  Stats, Fetched, initial_stats, lower, higher, run_query, run_queries, run_benchmark,
  fetch_outcome, benchmark_url,
}

-- What the numbers say of each other: no request was counted, or the total is between the fastest
-- and the slowest time, times the count.
abbrev pub IsBounded : Stats → Type 0
IsBounded stats =
    ((stats.success_count ≡ 0) × (stats.total_time ≡ 0) × (stats.min_time ≡ none))
    ⊎ ((least : ℕ) × (stats.min_time ≡ some least)
        × (1 ≤ stats.success_count)
        × (least * stats.success_count ≤ stats.total_time)
        × (stats.total_time ≤ stats.max_time * stats.success_count))

abbrev pub counted : Option ℕ → List ℕ → List ℕ
counted none ds = ds
counted (some d) ds = d ∷ ds

-- The durations that count.
unfoldable pub durations : (String → Option ℕ) → List String → List ℕ
durations outcome [] = []
durations outcome (q ∷ queries) = counted (outcome q) (durations outcome queries)

unfoldable pub sum : List ℕ → ℕ
sum [] = 0
sum (d ∷ ds) = d + sum ds

lower-le : (d least : ℕ) → (m : ℕ) × (lower d (some least) ≡ some m) × (m ≤ least) × (m ≤ d)
lower-le d least = elim (Bool-cases (ltb d least)) [
  | inl faster ↦ let lt = ltb→lt d least faster in rw (faster) (d, refl, omega arith, omega arith)
  | inr slow ↦ let le = ltb→le d least slow in rw (slow) (least, refl, omega arith, le)
]

higher-le : (d most : ℕ) → (most ≤ higher d most) × (d ≤ higher d most)
higher-le d most = elim (Bool-cases (ltb most d)) [
  | inl slower ↦ let lt = ltb→lt most d slower in rw (slower) (omega arith, omega arith)
  | inr quick ↦ let le = ltb→le most d quick in rw (quick) (omega arith, le)
]

add_low :
    (m least count total d : ℕ)
    → m ≤ least
    → m ≤ d
    → least * count ≤ total
    → m * (count + 1) ≤ total + d
add_low m least count total d h h' low =
    let less = mul-le-mul_right count h in
    let open_up = mul-add m count 1 in let one = mul-one m in omega arith

add_high :
    (k most count total d : ℕ)
    → most ≤ k
    → d ≤ k
    → total ≤ most * count
    → total + d ≤ k * (count + 1)
add_high k most count total d h h' high =
    let more = mul-le-mul_right count h in
    let open_up = mul-add k count 1 in let one = mul-one k in omega arith

first_low : (d count total : ℕ) → count ≡ 0 → total ≡ 0 → d * (count + 1) ≤ total + d
first_low d count total nothing empty = let one = mul-one d in rw (nothing) (omega arith)

first_high : (k count total d : ℕ) → d ≤ k → count ≡ 0 → total ≡ 0 → total + d ≤ k * (count + 1)
first_high k count total d le nothing empty = let one = mul-one k in rw (nothing) (omega arith)

run_query-IsBounded :
    (outcome : Option ℕ) (stats : Stats) → IsBounded stats → IsBounded (run_query outcome stats)
unfolding run_query
run_query-IsBounded none stats h = h
run_query-IsBounded (some d) stats (inl (nothing, zero_total, infinite)) =
    let (most, own) = higher-le d stats.max_time in
    inr (
      d,
      ap (lower d) infinite,
      omega arith,
      first_low d stats.success_count stats.total_time nothing zero_total,
      first_high (higher d stats.max_time) stats.success_count stats.total_time d own nothing
          zero_total,
    )
run_query-IsBounded (some d) stats (inr (least, known, some_query, low, high)) =
    let (m, is, under, own) = lower-le d least in
    let (most, top) = higher-le d stats.max_time in
    inr (
      m,
      ap (lower d) known ∙ is,
      omega arith,
      add_low m least stats.success_count stats.total_time d under own low,
      add_high (higher d stats.max_time) stats.max_time stats.success_count stats.total_time d most
          top high,
    )

-- What a run has counted.
abbrev IsCounted : List ℕ → Stats → Stats → Type 0
IsCounted ds before after =
    (after.success_count ≡ before.success_count + length ds)
    × (after.total_time ≡ before.total_time + sum ds)
    × (IsBounded before → IsBounded after)

IsCounted-run_query :
    (o : Option ℕ) (ds : List ℕ) (before after : Stats)
    → IsCounted ds (run_query o before) after
    → IsCounted (counted o ds) before after
unfolding run_query sum
IsCounted-run_query none ds before after h = h
IsCounted-run_query (some d) ds before after (count, total, bounded) =
    (omega arith, omega arith, λ h. bounded (run_query-IsBounded (some d) before h))

run_queries-IsCounted :
    (outcome : String → Option ℕ) (queries : List String) (stats : Stats)
    → IsCounted (durations outcome queries) stats (run_queries outcome queries stats)
unfolding run_queries durations sum
run_queries-IsCounted outcome [] stats = (omega arith, omega arith, λ h. h)
run_queries-IsCounted outcome (q ∷ queries) stats =
    IsCounted-run_query (outcome q) (durations outcome queries) stats
      (run_queries outcome queries (run_query (outcome q) stats))
      (run_queries-IsCounted outcome queries (run_query (outcome q) stats))

-- The count and the total time of a run are the number and the sum of the durations of the requests
-- that succeed, and if there is one, the total is at least the fastest time and at most the slowest
-- time that are reported, each times the count; if there is none, all is zero and the fastest time
-- is left at infinity.
pub run_benchmark-IsBounded :
    (fetch : String → Option Fetched) (queries : List String)
    → let ds = durations (λ q. fetch_outcome (fetch (benchmark_url q))) queries in
      ((run_benchmark fetch queries).success_count ≡ length ds)
      × ((run_benchmark fetch queries).total_time ≡ sum ds)
      × IsBounded (run_benchmark fetch queries)
unfolding run_benchmark
run_benchmark-IsBounded fetch queries =
    let (count, total, bounded) =
      run_queries-IsCounted (λ q. fetch_outcome (fetch (benchmark_url q))) queries initial_stats in
    (omega arith, omega arith, bounded (inl (refl, refl, refl)))
