-- ===== src/Storage/Chunks.antt =====
-- The loop of `uploadFile` that cuts a file into chunks, and the loop of `downloadFile` that joins
-- them.
use feedo.Base.{
  ℕ, zero, suc, ◌+◌, ◌-◌, ◌≤◌, ◌<◌, ◌≡◌, refl, List, [], ◌∷◌, ◌++◌, inl, inr, length, take, drop,
  ltb, ltb→lt, ltb→le, arith, Bool-cases, if◌then◌else◌, All, take-append-drop, drop-drop,
  length-take, length-drop,
}
use feedo.Runtime.Wire.{Bytes}

-- `const CHUNK_SIZE = 5 * 1024 * 1024`
abbrev pub chunk_size : ℕ
chunk_size = 5242880

-- `content.slice(start, end)`
abbrev pub slice : Bytes → ℕ → ℕ → Bytes
slice content start end = take (end - start) (drop start content)

-- `while (offset < size) { … offset += CHUNK_SIZE }`
unfoldable pub chunk_loop : ℕ → ℕ → Bytes → ℕ → List Bytes
chunk_loop zero c content offset = []
chunk_loop (suc fuel) c content offset =
    let rest = chunk_loop fuel c content (offset + c) in
    if ltb offset (length content) then slice content offset (offset + c) ∷ rest else []

-- Each round but the last passes a byte, so as many rounds as there are bytes are enough.
unfoldable pub chunks_of : ℕ → Bytes → List Bytes
unfolding chunk_loop
chunks_of c content = chunk_loop (length content) c content 0

unfoldable pub concat : List Bytes → Bytes
concat [] = []
concat (b ∷ bs) = b ++ concat bs

drop_past : (n : ℕ) (content : Bytes) → length content ≤ n → drop n content ≡ []
drop_past zero [] h = refl
drop_past zero (x ∷ xs) h = absurd (omega arith)
drop_past (suc n) [] h = refl
drop_past (suc n) (x ∷ xs) h = drop_past n xs (omega arith)

concat-chunk_loop :
    (fuel c : ℕ) (content : Bytes) (offset : ℕ)
    → 0 < c
    → length content - offset ≤ fuel
    → concat (chunk_loop fuel c content offset) ≡ drop offset content
unfolding concat chunk_loop
concat-chunk_loop zero c content offset pos h =
    let past = drop_past offset content (omega arith) in rw past
concat-chunk_loop (suc fuel) c content offset pos h =
    elim (Bool-cases (ltb offset (length content))) [
      | inl more ↦
          let lt = ltb→lt offset (length content) more in
          let e : offset + c - offset ≡ c = omega arith in
          let ih = concat-chunk_loop fuel c content (offset + c) pos (omega arith) in
          rw (more, e, ih, ← drop-drop c offset content) (take-append-drop c (drop offset content))
      | inr ended ↦
          let past = drop_past offset content (ltb→le offset (length content) ended) in
          rw (ended, past)
    ]

-- For a positive chunk size, the chunks into which `uploadFile` cuts a file, joined in order, are
-- the file.
pub concat-chunks_of : (c : ℕ) (content : Bytes) → 0 < c → concat (chunks_of c content) ≡ content
unfolding chunks_of
concat-chunks_of c content pos = concat-chunk_loop (length content) c content 0 pos (omega arith)

chunk_loop-sizes :
    (fuel c : ℕ) (content : Bytes) (offset : ℕ)
    → 0 < c
    → All (λ b. (0 < length b) × (length b ≤ c)) (chunk_loop fuel c content offset)
unfolding chunk_loop
chunk_loop-sizes zero c content offset pos = tt
chunk_loop-sizes (suc fuel) c content offset pos = elim (Bool-cases (ltb offset (length content))) [
  | inl more ↦ rw more (
    omega (
      arith,
      ltb→lt offset (length content) more,
      length-take (offset + c - offset) (drop offset content),
      length-drop offset content,
    ),
    chunk_loop-sizes fuel c content (offset + c) pos,
  )
  | inr ended ↦ rw ended tt
]

-- For a positive chunk size, no chunk of a file is empty or longer than the chunk size.
pub chunks_of-sizes :
    (c : ℕ) (content : Bytes)
    → 0 < c
    → All (λ b. (0 < length b) × (length b ≤ c)) (chunks_of c content)
unfolding chunks_of
chunks_of-sizes c content pos = chunk_loop-sizes (length content) c content 0 pos
