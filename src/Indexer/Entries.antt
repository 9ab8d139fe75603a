-- ===== src/Indexer/Entries.antt =====
-- The entries of the log, as `loadCheckpoints` reads them.
use feedo.Base.{ℕ, ◌<◌, ◌≡◌, refl, ◌∙◌, ap, List, ◌∷◌, ◌++◌, Bool, true, false, length, All}
use feedo.Scan.{Codes, codes, bracketed, match_all, decimal, is_digit}
use feedo.Scan.Laws.{
  IsNotAt, Dead-of_strip, Dead-of_Lacks, Dead-of_second, match_all-Dead, match_all_hit,
}
use feedo.Scan.Numbers.{decimal-is_digit, length-decimal}
use feedo.Indexer.{
  feedo_domain, dashed, Site, heading, domain_line, cid_line, path_line, subdomain_line, md_log,
  is_hex, is_not_bracket, domain_pattern, count_pattern,
}
use feedo.Indexer.Hosts.{
  is_host, IsHost, IsHex, Lacks-of_class, feedo_domain-IsHost, is_not_bracket_of_Lacks,
  dashed-IsHost,
}

abbrev pub domains_in : Codes → List Codes
domains_in = match_all domain_pattern 0

abbrev pub counts_in : Codes → List Codes
counts_in = match_all count_pattern 0

-- The domain pattern begins with a dash and a space, so it cannot begin in a run without spaces.
domains_past :
    (class : ℕ → Bool) (w r : Codes)
    → class b' ' ≡ false
    → All (λ c. class c ≡ true) w
    → IsNotAt b' ' r
    → domains_in (w ++ r) ≡ domains_in r
domains_past class w r out h at = match_all-Dead domain_pattern w r (
    Dead-of_strip (codes "- **Original Domain:** [") is_not_bracket b']' w r (
      Dead-of_second b'-' b' ' (codes "**Original Domain:** [") w r
        (Lacks-of_class class b' ' w out h) at))

domains_in-heading :
    (number label rest : Codes)
    → All (λ c. is_digit c ≡ true) number
    → IsHost label
    → domains_in (heading number label rest) ≡ domains_in rest
unfolding match_all bracketed
domains_in-heading number label rest n f =
    domains_past is_digit number
      (codes ". ["
        ++ (label ++ (codes "](https://gateway.feedo.ink/" ++ (label ++ (codes ")\n" ++ rest)))))
      refl n refl
    ∙ domains_past is_host label
        (codes "](https://gateway.feedo.ink/" ++ (label ++ (codes ")\n" ++ rest))) refl f refl
    ∙ domains_past is_host label (codes ")\n" ++ rest) refl f refl

domains_in-domain_line :
    (domain rest : Codes)
    → IsHost domain
    → 0 < length domain
    → domains_in (domain_line domain rest) ≡ domain ∷ domains_in rest
unfolding match_all bracketed
domains_in-domain_line domain rest d filled =
    match_all_hit b'-' (codes " **Original Domain:** [") is_not_bracket b']' domain
      (codes "(https://" ++ (domain ++ (codes ")\n" ++ rest))) filled
      (is_not_bracket_of_Lacks domain (Lacks-of_class is_host b']' domain refl d)) refl
    ∙ ap (λ ds. domain ∷ ds) (domains_past is_host domain (codes ")\n" ++ rest) refl d refl)

domains_in-cid_line :
    (cid rest : Codes) → IsHex cid → domains_in (cid_line cid rest) ≡ domains_in rest
unfolding match_all bracketed
domains_in-cid_line cid rest c = domains_past is_hex cid (codes "`\n" ++ rest) refl c refl

domains_in-path_line :
    (label rest : Codes) → IsHost label → domains_in (path_line label rest) ≡ domains_in rest
unfolding match_all bracketed
domains_in-path_line label rest f =
    domains_past is_host label
      (codes "](https://gateway.feedo.ink/" ++ (label ++ (codes ")\n" ++ rest))) refl f refl
    ∙ domains_past is_host label (codes ")\n" ++ rest) refl f refl

domains_in-subdomain_line :
    (label rest : Codes) → IsHost label → domains_in (subdomain_line label rest) ≡ domains_in rest
unfolding match_all bracketed
domains_in-subdomain_line label rest l =
    domains_past is_host label
      (codes ".gateway.feedo.ink](https://" ++ (label ++ (codes ".gateway.feedo.ink)\n" ++ rest)))
      refl l refl
    ∙ domains_past is_host label (codes ".gateway.feedo.ink)\n" ++ rest) refl l refl

-- A site as it comes to the log: its domain is a host name, and its CID hexadecimal.
pub record IsLogged (site : Site) : Type 0 where
  pub host : IsHost site.domain
  pub named : 0 < length site.domain
  pub hex : IsHex site.cid
  pub found : 0 < length site.cid

pub domains_in-md_log :
    (site : Site) (rest : Codes)
    → IsLogged site
    → domains_in (md_log site rest) ≡ site.domain ∷ domains_in rest
unfolding md_log
domains_in-md_log site rest ok =
    let label = feedo_domain site.domain in
    let f = feedo_domain-IsHost site.domain ok.host in
    let g = dashed-IsHost label f in
    let t4 = subdomain_line (dashed label) (codes "\n" ++ rest) in
    let t3 = path_line label t4 in
    let t2 = cid_line site.cid t3 in
    domains_in-heading (decimal site.number) label (domain_line site.domain t2)
      (decimal-is_digit site.number) f
    ∙ domains_in-domain_line site.domain t2 ok.host ok.named
    ∙ ap (λ ds. site.domain ∷ ds)
        (domains_in-cid_line site.cid t3 ok.hex
          ∙ domains_in-path_line label t4 f
          ∙ domains_in-subdomain_line (dashed label) (codes "\n" ++ rest) g
          ∙ unfold match_all bracketed in refl)

-- The count pattern begins with a number sign.
counts_past :
    (class : ℕ → Bool) (w r : Codes)
    → class b'#' ≡ false
    → All (λ c. class c ≡ true) w
    → counts_in (w ++ r) ≡ counts_in r
counts_past class w r out h = match_all-Dead count_pattern w r (
    Dead-of_strip (codes "### ") is_digit b'.' w r
      (Dead-of_Lacks b'#' (codes "## ") w r (Lacks-of_class class b'#' w out h)))

counts_in-heading :
    (number label rest : Codes)
    → All (λ c. is_digit c ≡ true) number
    → 0 < length number
    → IsHost label
    → counts_in (heading number label rest) ≡ number ∷ counts_in rest
unfolding match_all bracketed
counts_in-heading number label rest n filled f =
    match_all_hit b'#' (codes "## ") is_digit b'.' number
      (codes " ["
        ++ (label ++ (codes "](https://gateway.feedo.ink/" ++ (label ++ (codes ")\n" ++ rest)))))
      filled n refl
    ∙ ap (λ ns. number ∷ ns)
        (counts_past is_host label
            (codes "](https://gateway.feedo.ink/" ++ (label ++ (codes ")\n" ++ rest))) refl f
          ∙ counts_past is_host label (codes ")\n" ++ rest) refl f)

counts_in-lines :
    (label dashes domain cid rest : Codes)
    → IsHost label
    → IsHost dashes
    → IsHost domain
    → IsHex cid
    → counts_in (domain_line domain (cid_line cid (path_line label (subdomain_line dashes rest))))
      ≡ counts_in rest
unfolding match_all bracketed
counts_in-lines label dashes domain cid rest f l d c =
    let t4 = subdomain_line dashes rest in
    let t3 = path_line label t4 in
    let t2 = cid_line cid t3 in
    counts_past is_host domain (codes "](https://" ++ (domain ++ (codes ")\n" ++ t2))) refl d
    ∙ counts_past is_host domain (codes ")\n" ++ t2) refl d
    ∙ counts_past is_hex cid (codes "`\n" ++ t3) refl c
    ∙ counts_past is_host label
        (codes "](https://gateway.feedo.ink/" ++ (label ++ (codes ")\n" ++ t4))) refl f
    ∙ counts_past is_host label (codes ")\n" ++ t4) refl f
    ∙ counts_past is_host dashes
        (codes ".gateway.feedo.ink](https://"
          ++ (dashes ++ (codes ".gateway.feedo.ink)\n" ++ rest)))
        refl l
    ∙ counts_past is_host dashes (codes ".gateway.feedo.ink)\n" ++ rest) refl l

pub counts_in-md_log :
    (site : Site) (rest : Codes)
    → IsLogged site
    → counts_in (md_log site rest) ≡ decimal site.number ∷ counts_in rest
unfolding md_log
counts_in-md_log site rest ok =
    let label = feedo_domain site.domain in
    let f = feedo_domain-IsHost site.domain ok.host in
    let dashes = dashed label in
    let end = codes "\n" ++ rest in
    counts_in-heading (decimal site.number) label
      (domain_line site.domain (cid_line site.cid (path_line label (subdomain_line dashes end))))
      (decimal-is_digit site.number) (length-decimal site.number) f
    ∙ ap (λ ns. decimal site.number ∷ ns)
        (counts_in-lines label dashes site.domain site.cid end f (dashed-IsHost label f) ok.host
            ok.hex
          ∙ unfold match_all bracketed in refl)
