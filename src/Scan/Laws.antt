-- ===== src/Scan/Laws.antt =====
-- Where a pattern cannot match, and what it captures where its own text stands.
use feedo.Base.{
  ℕ, zero, suc, ◌+◌, ◌-◌, ◌<◌, ◌≡◌, refl, sym, ◌∙◌, ap, [], ◌∷◌, ◌++◌, Option, none, some, Bool,
  true, false, inl, inr, length, length-append, append_assoc, ◌==◌, arith, Bool-cases, All,
}
use feedo.Scan.{
  Codes, strip, span, group, sized, closed, Pattern, bracketed, match_all, match_first, split_text,
}

-- A test that fails at every position of `w`, with `r` behind it.
abbrev pub Dead : {A : Type 0} → (Codes → Option A) → Codes → Codes → Type 0
Dead test [] r = Unit
Dead test (c ∷ w) r = (test (c ∷ (w ++ r)) ≡ none) × Dead test w r

abbrev pub Lacks : ℕ → Codes → Type 0
Lacks a = All (λ c. (c == a) ≡ false)

-- A text does not begin with `b`.
abbrev pub IsNotAt : ℕ → Codes → Type 0
IsNotAt b [] = Unit
IsNotAt b (d ∷ s) = (d == b) ≡ false

pub strip_of_ne :
    (a : ℕ) (lead : Codes) (c : ℕ) (s : Codes) → (c == a) ≡ false → strip (a ∷ lead) (c ∷ s) ≡ none
strip_of_ne a lead c s h = rw h refl

strip_of_second :
    (a b : ℕ) (lead : Codes) (c : ℕ) (s : Codes) → IsNotAt b s → strip (a ∷ b ∷ lead) (c ∷ s) ≡ none
strip_of_second a b lead c [] h = elim (Bool-cases (c == a)) [
  | inl same ↦ rw same refl
  | inr other ↦ rw other refl
]
strip_of_second a b lead c (d ∷ s) h = elim (Bool-cases (c == a)) [
  | inl same ↦ rw (same, h) refl
  | inr other ↦ rw other refl
]

pub strip-append : (lead t : Codes) → strip lead (lead ++ t) ≡ some t
strip-append [] t = refl
strip-append (c ∷ lead) t =
    let same : (c == c) ≡ true = ground arith in rw (same, strip-append lead t) refl

pub Dead-of_strip :
    (lead : Codes) (class : ℕ → Bool) (close : ℕ) (w r : Codes)
    → Dead (strip lead) w r
    → Dead (bracketed lead class close) w r
unfolding bracketed
Dead-of_strip lead class close [] r h = tt
Dead-of_strip lead class close (c ∷ w) r (h, hs) =
    (ap (λ o. sized lead (group class close o)) h, Dead-of_strip lead class close w r hs)

pub Dead-of_Lacks : (a : ℕ) (lead w r : Codes) → Lacks a w → Dead (strip (a ∷ lead)) w r
Dead-of_Lacks a lead [] r h = tt
Dead-of_Lacks a lead (c ∷ w) r (h, hs) =
    (strip_of_ne a lead c (w ++ r) h, Dead-of_Lacks a lead w r hs)

pub Dead-of_second :
    (a b : ℕ) (lead w r : Codes) → Lacks b w → IsNotAt b r → Dead (strip (a ∷ b ∷ lead)) w r
Dead-of_second a b lead [] r h n = tt
Dead-of_second a b lead (c ∷ []) r (h, hs) n = (strip_of_second a b lead c r n, tt)
Dead-of_second a b lead (c ∷ d ∷ w) r (h, hs) n =
    (strip_of_second a b lead c (d ∷ (w ++ r)) hs.0, Dead-of_second a b lead (d ∷ w) r hs n)

module _ (pattern : Pattern) where
  pub match_all-Dead :
      (w r : Codes) → Dead pattern w r → match_all pattern 0 (w ++ r) ≡ match_all pattern 0 r
  unfolding match_all
  match_all-Dead [] r h = refl
  match_all-Dead (c ∷ w) r (h, hs) = rw (h, match_all) (match_all-Dead w r hs)

  pub match_first-Dead :
      (w r : Codes) → Dead pattern w r → match_first pattern (w ++ r) ≡ match_first pattern r
  unfolding match_first
  match_first-Dead [] r h = refl
  match_first-Dead (c ∷ w) r (h, hs) = rw (h, match_first) (match_first-Dead w r hs)

  match_all_skip :
      (w r : Codes) (k : ℕ) → k ≡ length w → match_all pattern k (w ++ r) ≡ match_all pattern 0 r
  unfolding match_all
  match_all_skip [] r zero e = refl
  match_all_skip [] r (suc k) e = absurd (omega arith)
  match_all_skip (c ∷ w) r zero e = absurd (omega arith)
  match_all_skip (c ∷ w) r (suc k) e = match_all_skip w r k (omega arith)

pub match_first_here :
    (pattern : Pattern) (c : ℕ) (s run : Codes) (size : ℕ)
    → pattern (c ∷ s) ≡ some (run, size)
    → match_first pattern (c ∷ s) ≡ some run
unfolding match_first
match_first_here pattern c s run size h = rw (h, match_first) refl

module _ (sep : Codes) where
  pub split_text-Dead :
      (w r : Codes)
      → Dead (strip sep) w r
      → split_text sep 0 (w ++ r) ≡ (w ++ (split_text sep 0 r).0, (split_text sep 0 r).1)
  unfolding split_text
  split_text-Dead [] r h = refl
  split_text-Dead (c ∷ w) r (h, hs) = rw (h, split_text, split_text-Dead w r hs) refl

  split_text_skip :
      (w r : Codes) (k : ℕ) → k ≡ length w → split_text sep k (w ++ r) ≡ split_text sep 0 r
  unfolding split_text
  split_text_skip [] r zero e = refl
  split_text_skip [] r (suc k) e = absurd (omega arith)
  split_text_skip (c ∷ w) r zero e = absurd (omega arith)
  split_text_skip (c ∷ w) r (suc k) e = split_text_skip w r k (omega arith)

pub split_text_hit :
    (a : ℕ) (lead r : Codes)
    → split_text (a ∷ lead) 0 ((a ∷ lead) ++ r)
      ≡ ([], (split_text (a ∷ lead) 0 r).0 ∷ (split_text (a ∷ lead) 0 r).1)
unfolding split_text
split_text_hit a lead r =
    let behind = split_text_skip (a ∷ lead) lead r (length (a ∷ lead) - 1) (omega arith) in
    rw (strip-append (a ∷ lead) r, split_text, behind) refl

pub span_run :
    (class : ℕ → Bool) (run : Codes) (d : ℕ) (r : Codes)
    → All (λ c. class c ≡ true) run
    → class d ≡ false
    → span class (run ++ d ∷ r) ≡ (run, d ∷ r)
span_run class [] d r h e = rw e refl
span_run class (c ∷ run) d r (h, hs) e = rw (span_run class run d r hs e, h) refl

pub closed_run :
    (close : ℕ) (run r : Codes) → 0 < length run → closed close (run, close ∷ r) ≡ some run
closed_run close [] r h = absurd (omega arith)
closed_run close (c ∷ run) r h = let same : (close == close) ≡ true = ground arith in rw same refl

module _ (lead : Codes) (class : ℕ → Bool) (close : ℕ) (run r : Codes) (filled : 0 < length run)
    (inside : All (λ c. class c ≡ true) run) (outside : class close ≡ false) where
  bracketed_hit :
      bracketed lead class close (lead ++ (run ++ close ∷ r))
      ≡ some (run, length lead + length run + 1)
  unfolding bracketed
  bracketed_hit =
      ap (λ o. sized lead (group class close o)) (strip-append lead (run ++ close ∷ r))
      ∙ ap (λ x. sized lead (closed close x)) (span_run class run close r inside outside)
      ∙ ap (sized lead) (closed_run close run r filled)

module _ (a : ℕ) (lead : Codes) (class : ℕ → Bool) (close : ℕ) (run r : Codes)
    (filled : 0 < length run) (inside : All (λ c. class c ≡ true) run)
    (outside : class close ≡ false) where
  pub match_first_hit :
      match_first (bracketed (a ∷ lead) class close) ((a ∷ lead) ++ (run ++ close ∷ r)) ≡ some run
  unfolding match_first
  match_first_hit =
      rw (bracketed_hit (a ∷ lead) class close run r filled inside outside, match_first) refl

  pub match_all_hit :
      match_all (bracketed (a ∷ lead) class close) 0 ((a ∷ lead) ++ (run ++ close ∷ r))
      ≡ run ∷ match_all (bracketed (a ∷ lead) class close) 0 r
  unfolding match_all
  match_all_hit =
      let used = lead ++ (run ++ close ∷ []) in
      let shape : lead ++ (run ++ close ∷ r) ≡ used ++ r = sym (
        append_assoc lead (run ++ close ∷ []) r
        ∙ ap (λ t. lead ++ t) (append_assoc run (close ∷ []) r)) in
      let size : length (a ∷ lead) + length run + 1 - 1 ≡ length used =
        omega (arith, length-append lead (run ++ close ∷ []), length-append run (close ∷ [])) in
      let behind =
        match_all_skip (bracketed (a ∷ lead) class close) used r
          (length (a ∷ lead) + length run + 1 - 1) size in
      rw
        (bracketed_hit (a ∷ lead) class close run r filled inside outside, match_all, shape, behind)
        refl
