-- ===== src/Backfill/RoundTrip.antt =====
-- The sites that backfill.js posts for a log that the indexer has written.
use feedo.Base.{
  ℕ, ◌+◌, ◌-◌, ◌<◌, ◌≡◌, refl, ◌∙◌, ap, List, [], ◌∷◌, ◌++◌, some, Bool, true, false, length,
  length-append, ltb, lt→ltb, drop, drop_left, arith, All, map,
}
use feedo.Scan.{Codes, codes, closed, sized, bracketed, match_first, decimal, is_digit}
use feedo.Scan.Laws.{
  strip_of_ne, match_first_here, Lacks, Dead, Dead-of_strip, Dead-of_Lacks, match_first-Dead,
  match_first_hit, span_run, closed_run,
}
use feedo.Scan.Numbers.{decimal-is_digit}
use feedo.Indexer.{
  feedo_domain, before_last_dot, dashed, Site, domain_line, cid_line, path_line, subdomain_line,
  is_hex, is_not_bracket,
}
use feedo.Indexer.Hosts.{
  is_host, IsHost, Lacks-of_class, feedo_domain-IsHost, is_not_bracket_of_Lacks,
}
use feedo.Indexer.Entries.{IsLogged}
use feedo.Indexer.Resume.{log_text}
use feedo.Backfill.{
  Entry, suffix, only_feedo, bracket_group, feedo_pattern, original_pattern, is_not_backtick,
  cid_line_pattern, description_of, entry_of, sites_of,
}
use feedo.Backfill.Blocks.{block, split_text-log_text}

-- What is posted for a site.
abbrev pub posted : Site → Entry
posted site = record {
  title = site.domain;
  domain = feedo_domain site.domain;
  cid = site.cid;
  description = description_of site.domain;
}

only_feedo-feedo_domain : (d : Codes) → only_feedo (some (feedo_domain d)) ≡ some (feedo_domain d)
unfolding feedo_domain
only_feedo-feedo_domain d =
    let front = codes "snapshot." ++ before_last_dot d in
    let run = front ++ suffix in
    let size : length run ≡ length front + 6 = length-append front suffix in
    let long : ltb 6 (length run) ≡ true = lt→ltb 6 (length run) (omega arith) in
    let end : drop (length run - 6) run ≡ suffix =
      drop_left front suffix (length run - 6) (omega arith) in
    rw (long, end) refl

module _ (site : Site) (rest : Codes) (ok : IsLogged site) where
  abbrev label : Codes
  label = feedo_domain site.domain

  is_feedo : IsHost label
  is_feedo = feedo_domain-IsHost site.domain ok.host

  abbrev behind : Codes
  behind = cid_line site.cid (path_line label (subdomain_line (dashed label) (codes "\n" ++ rest)))

  abbrev after_heading : Codes
  after_heading = domain_line site.domain behind

  abbrev after_feedo : Codes
  after_feedo = codes "](https://gateway.feedo.ink/" ++ (label ++ (codes ")\n" ++ after_heading))

  match_first-label : match_first feedo_pattern (block site rest) ≡ some label
  unfolding match_first feedo_pattern
  match_first-label =
      let n =
        Lacks-of_class is_digit b'[' (decimal site.number) refl (decimal-is_digit site.number) in
      match_first-Dead feedo_pattern (decimal site.number) (codes ". [" ++ (label ++ after_feedo))
        (dead (decimal site.number) (codes ". [" ++ (label ++ after_feedo)) n)
      ∙ match_first_here feedo_pattern b'[' (label ++ after_feedo) label
          (length (codes "[") + length label + 1) here
    where
      filled : 0 < length label
      filled = unfold feedo_domain in omega arith

      inside : All (λ c. is_not_bracket c ≡ true) label
      inside = is_not_bracket_of_Lacks label (Lacks-of_class is_host b']' label refl is_feedo)

      behind_bracket : Codes
      behind_bracket =
          codes "(https://gateway.feedo.ink/" ++ (label ++ (codes ")\n" ++ after_heading))

      here :
          feedo_pattern (b'[' ∷ (label ++ after_feedo))
          ≡ some (label, length (codes "[") + length label + 1)
      here =
          ap (λ x. sized (codes "[") (only_feedo (closed b']' x)))
            (span_run is_not_bracket label b']' behind_bracket inside refl)
          ∙ ap (λ o. sized (codes "[") (only_feedo o)) (closed_run b']' label behind_bracket filled)
          ∙ ap (sized (codes "[")) (only_feedo-feedo_domain site.domain)

      dead : (w r : Codes) → Lacks b'[' w → Dead feedo_pattern w r
      dead [] r h = tt
      dead (c ∷ w) r (h, hs) = (
        ap (λ o. sized (codes "[") (bracket_group o)) (strip_of_ne b'[' [] c (w ++ r) h),
        dead w r hs,
      )

  -- Behind a run without stars the two patterns that begin with stars go on.
  original_past :
      (class : ℕ → Bool) (w r : Codes)
      → class b'*' ≡ false
      → All (λ c. class c ≡ true) w
      → match_first original_pattern (w ++ r) ≡ match_first original_pattern r
  original_past class w r out h = match_first-Dead original_pattern w r (
      Dead-of_strip (codes "**Original Domain:** [") is_not_bracket b']' w r (
        Dead-of_Lacks b'*' (codes "*Original Domain:** [") w r (Lacks-of_class class b'*' w out h)))

  match_first-original : match_first original_pattern (block site rest) ≡ some site.domain
  unfolding match_first bracketed
  match_first-original =
      original_past is_digit (decimal site.number) (codes ". [" ++ (label ++ after_feedo)) refl
        (decimal-is_digit site.number)
      ∙ original_past is_host label after_feedo refl is_feedo
      ∙ original_past is_host label (codes ")\n" ++ after_heading) refl is_feedo
      ∙ match_first_hit b'*' (codes "*Original Domain:** [") is_not_bracket b']' site.domain
          (codes "(https://" ++ (site.domain ++ (codes ")\n" ++ behind))) ok.named
          (is_not_bracket_of_Lacks site.domain
            (Lacks-of_class is_host b']' site.domain refl ok.host))
          refl

  cid_past :
      (class : ℕ → Bool) (w r : Codes)
      → class b'*' ≡ false
      → All (λ c. class c ≡ true) w
      → match_first cid_line_pattern (w ++ r) ≡ match_first cid_line_pattern r
  cid_past class w r out h = match_first-Dead cid_line_pattern w r (
      Dead-of_strip (codes "**CID:** `") is_not_backtick b'`' w r
        (Dead-of_Lacks b'*' (codes "*CID:** `") w r (Lacks-of_class class b'*' w out h)))

  match_first-cid : match_first cid_line_pattern (block site rest) ≡ some site.cid
  unfolding match_first bracketed
  match_first-cid =
      cid_past is_digit (decimal site.number) (codes ". [" ++ (label ++ after_feedo)) refl
        (decimal-is_digit site.number)
      ∙ cid_past is_host label after_feedo refl is_feedo
      ∙ cid_past is_host label (codes ")\n" ++ after_heading) refl is_feedo
      ∙ cid_past is_host site.domain
          (codes "](https://" ++ (site.domain ++ (codes ")\n" ++ behind))) refl ok.host
      ∙ cid_past is_host site.domain (codes ")\n" ++ behind) refl ok.host
      ∙ match_first_hit b'*' (codes "*CID:** `") is_not_backtick b'`' site.cid
          (codes "\n" ++ path_line label (subdomain_line (dashed label) (codes "\n" ++ rest)))
          ok.found (no_backtick site.cid (Lacks-of_class is_hex b'`' site.cid refl ok.hex)) refl
    where
      no_backtick : (w : Codes) → Lacks b'`' w → All (λ c. is_not_backtick c ≡ true) w
      no_backtick [] h = tt
      no_backtick (c ∷ w) (h, hs) = (rw h refl, no_backtick w hs)

  entry_of-block : entry_of (block site rest) ≡ posted site
  unfolding entry_of
  entry_of-block = rw (match_first-label, match_first-original, match_first-cid) refl

-- Of a log that the indexer wrote for well-formed sites, the backfill takes one entry for each
-- site, in order, with the feedo domain, the original domain and the content id that the indexer
-- wrote.
pub sites_of-log_text :
    (sites : List Site) → All IsLogged sites → sites_of (log_text sites) ≡ map posted sites
unfolding sites_of
sites_of-log_text sites h = ap (λ x. map entry_of x.1) (split_text-log_text sites h) ∙ each sites h
  where
    each :
        (sites : List Site)
        → All IsLogged sites
        → map entry_of (map (λ site. block site []) sites) ≡ map posted sites
    each [] h = refl
    each (s ∷ sites) (h, hs) = rw (entry_of-block s [] h, each sites hs) refl
