-- ===== src/Indexer/Resume.antt =====
-- What the log says of the sites, and what a run that resumes from it knows.
use feedo.Base.{
  append-nil, lt→ltb, ℕ, suc, ◌≡◌, ◌≤◌, ◌≢◌, refl, sym, ◌∙◌, ap, List, [], ◌∷◌, ◌++◌, append_assoc,
  true, false, inl, inr, ◌==◌, arith, ltb, Bool-cases, All, map,
}
use feedo.Scan.{Codes, codes, decimal, value}
use feedo.Scan.Numbers.{value-decimal}
use feedo.Indexer.{same_text, has, add, add_all, Site, md_log, maximum, max_count, load_checkpoints}
use feedo.Indexer.Entries.{domains_in, counts_in, IsLogged, domains_in-md_log, counts_in-md_log}

-- The log of some sites.
unfoldable pub log_text : List Site → Codes
log_text [] = []
log_text (site ∷ sites) = md_log site (log_text sites)

abbrev pub domains : List Site → List Codes
domains = map (λ (site : Site). site.domain)

-- The numbers of the sites go up, from `k` or more.
abbrev pub IsNumbered : ℕ → List Site → Type 0
IsNumbered k [] = Unit
IsNumbered k (site ∷ sites) = (k ≤ site.number) × IsNumbered (suc site.number) sites

-- The number of the last site, or `k`.
abbrev pub last_number : ℕ → List Site → ℕ
last_number k [] = k
last_number k (site ∷ sites) = last_number site.number sites

abbrev pub Distinct : List Codes → Type 0
Distinct [] = Unit
Distinct (d ∷ ds) = All (λ e. e ≢ d) ds × Distinct ds

md_log-append :
    (site : Site) (rest more : Codes) → md_log site (rest ++ more) ≡ md_log site rest ++ more
unfolding md_log
md_log-append site rest more = simp (append_assoc)

pub log_text-snoc :
    (sites : List Site) (site : Site)
    → log_text (sites ++ site ∷ []) ≡ log_text sites ++ md_log site []
unfolding log_text
log_text-snoc [] site = refl
log_text-snoc (s ∷ sites) site =
    ap (md_log s) (log_text-snoc sites site) ∙ md_log-append s (log_text sites) (md_log site [])

pub domains_in-log_text :
    (sites : List Site) → All IsLogged sites → domains_in (log_text sites) ≡ domains sites
unfolding log_text
domains_in-log_text [] h = unfold feedo.Scan.match_all in refl
domains_in-log_text (s ∷ sites) (h, hs) =
    domains_in-md_log s (log_text sites) h ∙ ap (λ ds. s.domain ∷ ds) (domains_in-log_text sites hs)

counts_in-log_text :
    (sites : List Site)
    → All IsLogged sites
    → counts_in (log_text sites) ≡ map (λ (site : Site). decimal site.number) sites
unfolding log_text
counts_in-log_text [] h = unfold feedo.Scan.match_all in refl
counts_in-log_text (s ∷ sites) (h, hs) =
    counts_in-md_log s (log_text sites) h
    ∙ ap (λ ns. decimal s.number ∷ ns) (counts_in-log_text sites hs)

pub same_text_sound : (s t : Codes) → same_text s t ≡ true → s ≡ t
same_text_sound [] [] h = refl
same_text_sound [] (d ∷ t) h = cc
same_text_sound (c ∷ s) [] h = cc
same_text_sound (c ∷ s) (d ∷ t) h = elim (Bool-cases (c == d)) [
  | inl same ↦
      let head : c ≡ d = ground arith in let tail = same_text_sound s t (rw same at h) in cc
  | inr other ↦ let bad = rw other at h in cc
]

pub same_text_refl : (s : Codes) → same_text s s ≡ true
same_text_refl [] = refl
same_text_refl (c ∷ s) =
    let same : (c == c) ≡ true = ground arith in rw (same, same_text_refl s) refl

has_new : (ds : List Codes) (d : Codes) → All (λ e. e ≢ d) ds → has ds d ≡ false
unfolding has
has_new [] d h = refl
has_new (e ∷ ds) d (h, hs) = elim (Bool-cases (same_text e d)) [
  | inl same ↦ absurd (h (same_text_sound e d same))
  | inr other ↦ rw (other, has_new ds d hs) refl
]

module _ {ℓ κ} {A : Type ℓ} (P : A → Type κ) where
  pub All-snoc : (xs : List A) (x : A) → All P xs → P x → All P (xs ++ x ∷ [])
  All-snoc [] x h p = (p, tt)
  All-snoc (y ∷ ys) x (q, h) p = (q, All-snoc ys x h p)

  All-left : (xs ys : List A) → All P (xs ++ ys) → All P xs
  All-left [] ys h = tt
  All-left (x ∷ xs) ys (p, h) = (p, All-left xs ys h)

seen_more :
    (d : Codes) (seen ds : List Codes)
    → All (λ e. e ≢ d) ds
    → All (λ x. All (λ e. e ≢ x) seen) ds
    → All (λ x. All (λ e. e ≢ x) (seen ++ d ∷ [])) ds
seen_more d seen [] h k = tt
seen_more d seen (x ∷ ds) (h, hs) (k, ks) =
    (All-snoc (λ e. e ≢ x) seen d k (λ e. h (sym e)), seen_more d seen ds hs ks)

add_all_new :
    (seen ds : List Codes)
    → Distinct ds
    → All (λ d. All (λ e. e ≢ d) seen) ds
    → add_all seen ds ≡ seen ++ ds
unfolding add_all add
add_all_new seen [] dist apart = sym (append-nil seen)
add_all_new seen (d ∷ ds) (fresh, dist) (out, apart) =
    rw (has_new seen d out, add_all)
      (add_all_new (seen ++ d ∷ []) ds dist (seen_more d seen ds fresh apart)
        ∙ append_assoc seen (d ∷ []) ds)

none_seen : (ds : List Codes) → All (λ x. All (λ e. e ≢ x) []) ds
none_seen [] = tt
none_seen (d ∷ ds) = (tt, none_seen ds)

maximum-numbers :
    (k : ℕ) (sites : List Site)
    → IsNumbered (suc k) sites
    → maximum k (map (value 0) (map (λ (site : Site). decimal site.number) sites))
      ≡ last_number k sites
maximum-numbers k [] h = refl
maximum-numbers k (s ∷ sites) (is, h) =
    let larger : ltb k s.number ≡ true = lt→ltb k s.number is in
    rw (value-decimal s.number, larger) (maximum-numbers s.number sites h)

max_count-numbers :
    (sites : List Site)
    → IsNumbered 1 sites
    → max_count 0 (map (λ (site : Site). decimal site.number) sites) ≡ last_number 0 sites
max_count-numbers [] h = refl
max_count-numbers (s ∷ sites) (is, h) =
    rw (value-decimal s.number) (maximum-numbers s.number sites h)

-- From the log of sites that are well formed, distinct and numbered upwards from 1 or more,
-- `loadCheckpoints` takes exactly their domains, in order, and the number of the last of them as
-- the count, or 0 if there is none.
pub load_checkpoints-log_text :
    (sites : List Site)
    → All IsLogged sites
    → Distinct (domains sites)
    → IsNumbered 1 sites
    → load_checkpoints (log_text sites) [] 0 ≡ (domains sites, last_number 0 sites)
unfolding load_checkpoints
load_checkpoints-log_text sites logged dist numbered =
    let seen =
      ap (add_all []) (domains_in-log_text sites logged)
      ∙ add_all_new [] (domains sites) dist (none_seen (domains sites)) in
    let top =
      ap (max_count 0) (counts_in-log_text sites logged) ∙ max_count-numbers sites numbered in
    rw (seen, top) refl
