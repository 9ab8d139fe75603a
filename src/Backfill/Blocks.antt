-- ===== src/Backfill/Blocks.antt =====
-- What the patterns of backfill.js find in the log that the indexer writes.
use feedo.Base.{
  ℕ, ◌≡◌, refl, ◌∙◌, ap, List, [], ◌∷◌, ◌++◌, append_assoc, append-nil, Bool, true, false, ◌&&◌,
  not, inl, inr, ◌==◌, Bool-cases, All, map,
}
use feedo.Scan.{Codes, codes, split_text, decimal, is_digit}
use feedo.Scan.Laws.{Lacks, Dead-of_Lacks, split_text-Dead, split_text_hit}
use feedo.Scan.Numbers.{All-append, decimal-is_digit}
use feedo.Indexer.{
  feedo_domain, dashed, Site, domain_line, cid_line, path_line, subdomain_line, md_log, is_hex,
}
use feedo.Indexer.Hosts.{is_host, Lacks-of_class, feedo_domain-IsHost, dashed-IsHost}
use feedo.Indexer.Entries.{IsLogged}
use feedo.Indexer.Resume.{log_text}

lacks_all : ℕ → Codes → Bool
lacks_all a [] = true
lacks_all a (c ∷ s) = not (c == a) && lacks_all a s

-- A literal without `a` in front of a text without `a`.
Lacks-lit : (a : ℕ) (s w : Codes) → lacks_all a s ≡ true → Lacks a w → Lacks a (s ++ w)
unfolding lacks_all
Lacks-lit a [] w h k = k
Lacks-lit a (c ∷ s) w h k = elim (Bool-cases (c == a)) [
  | inl same ↦ let bad = rw same at h in cc
  | inr other ↦ (other, Lacks-lit a s w (rw other at h) k)
]

Lacks-part :
    (a : ℕ) (s v w : Codes) → lacks_all a s ≡ true → Lacks a v → Lacks a w → Lacks a (s ++ (v ++ w))
Lacks-part a s v w h k l = Lacks-lit a s (v ++ w) h (All-append (λ c. (c == a) ≡ false) v w k l)

-- An entry of the log behind its number sign.
abbrev pub block : Site → Codes → Codes
block site rest =
    let label = feedo_domain site.domain in
    decimal site.number
    ++ (codes ". ["
        ++ (label
            ++ (codes "](https://gateway.feedo.ink/"
                ++ (label
                    ++ (codes ")\n"
                        ++ domain_line site.domain (
                            cid_line site.cid (
                              path_line label
                                (subdomain_line (dashed label) (codes "\n" ++ rest)))))))))

block-append : (site : Site) (rest : Codes) → block site rest ≡ block site [] ++ rest
block-append site rest = simp (append_assoc)

block-Lacks : (site : Site) → IsLogged site → Lacks b'#' (block site [])
unfolding lacks_all
block-Lacks site ok =
    let label = feedo_domain site.domain in
    let is_feedo = feedo_domain-IsHost site.domain ok.host in
    let f = Lacks-of_class is_host b'#' label refl is_feedo in
    let g = Lacks-of_class is_host b'#' (dashed label) refl (dashed-IsHost label is_feedo) in
    let d = Lacks-of_class is_host b'#' site.domain refl ok.host in
    let c = Lacks-of_class is_hex b'#' site.cid refl ok.hex in
    let n =
      Lacks-of_class is_digit b'#' (decimal site.number) refl (decimal-is_digit site.number) in
    Lacks-part b'#' [] (decimal site.number) _ refl n (
      Lacks-part b'#' (codes ". [") label _ refl f (
        Lacks-part b'#' (codes "](https://gateway.feedo.ink/") label _ refl f (
          Lacks-part b'#' (codes ")\n- **Original Domain:** [") site.domain _ refl d (
            Lacks-part b'#' (codes "](https://") site.domain _ refl d (
              Lacks-part b'#' (codes ")\n- **CID:** `") site.cid _ refl c (
                Lacks-part b'#' (codes "`\n- **Web2 Gateway (Path):** [https://gateway.feedo.ink/")
                  label _ refl f
                  (Lacks-part b'#' (codes "](https://gateway.feedo.ink/") label _ refl f (
                    Lacks-part b'#' (codes ")\n- **Web2 Gateway (Subdomain):** [https://")
                      (dashed label) _ refl g
                      (Lacks-part b'#' (codes ".gateway.feedo.ink](https://") (dashed label) _ refl
                        g (Lacks-lit b'#' (codes ".gateway.feedo.ink)\n\n") [] refl tt))))))))))

pub split_text-log_text :
    (sites : List Site)
    → All IsLogged sites
    → split_text (codes "### ") 0 (log_text sites) ≡ ([], map (λ site. block site []) sites)
unfolding log_text
split_text-log_text [] h = unfold split_text in refl
split_text-log_text (s ∷ sites) (h, hs) =
    let rest = log_text sites in
    let ih = split_text-log_text sites hs in
    let here =
      split_text-Dead (codes "### ") (block s []) rest
        (Dead-of_Lacks b'#' (codes "## ") (block s []) rest (block-Lacks s h)) in
    let first =
      ap (split_text (codes "### ") 0) (block-append s rest)
      ∙ here
      ∙ ap (λ x. (block s [] ++ x.0, x.1)) ih in
    split_at s rest
    ∙ ap (λ x. ([], x.0 ∷ x.1)) first
    ∙ ap (λ b. ([], b ∷ map (λ site. block site []) sites)) (append-nil (block s []))
  where
    split_at :
        (s : Site) (rest : Codes)
        → split_text (codes "### ") 0 (md_log s rest) ≡ (
          [],
          (split_text (codes "### ") 0 (block s rest)).0
              ∷ (split_text (codes "### ") 0 (block s rest)).1,
        )
    split_at s rest = unfold md_log in split_text_hit b'#' (codes "## ") (block s rest)
