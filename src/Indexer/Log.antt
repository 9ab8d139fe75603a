-- ===== src/Indexer/Log.antt =====
-- The log indexed_sites.md: the set of processed domains, an entry as `processSite` appends it, and
-- `loadCheckpoints` of scripts/indexer/index.js, which reads the entries.
use feedo.Base.{
  ℕ, List, [], ◌∷◌, ◌++◌, Bool, true, false, ◌&&◌, ◌||◌, map, ltb, ◌==◌, not, if◌then◌else◌,
}
use feedo.Scan.{Codes, codes, Pattern, bracketed, match_all, decimal, is_digit, value}

-- `===` on texts, and a `Set` of texts in the order of their insertion.
abbrev pub same_text : Codes → Codes → Bool
same_text [] [] = true
same_text [] (d ∷ t) = false
same_text (c ∷ s) [] = false
same_text (c ∷ s) (d ∷ t) = c == d && same_text s t

unfoldable pub has : List Codes → Codes → Bool
has [] d = false
has (e ∷ es) d = same_text e d || has es d

unfoldable pub add : List Codes → Codes → List Codes
unfolding has
add es d = if has es d then es else es ++ d ∷ []

abbrev pub has_dot : Codes → Bool
has_dot [] = false
has_dot (c ∷ s) = c == b'.' || has_dot s

-- `domain.substring(0, domain.lastIndexOf('.'))`, which is empty where there is no dot.
unfoldable pub before_last_dot : Codes → Codes
before_last_dot [] = []
before_last_dot (c ∷ s) = let rest = before_last_dot s in if has_dot s then c ∷ rest else []

unfoldable pub feedo_domain : Codes → Codes
unfolding before_last_dot
feedo_domain domain = codes "snapshot." ++ (before_last_dot domain ++ codes ".feedo")

-- `replaceAll('.', '-')`
abbrev pub dashed : Codes → Codes
dashed = map (λ c. if c == b'.' then b'-' else c)

pub record Site : Type 0 where
  pub number : ℕ
  pub domain : Codes
  pub cid : Codes

-- The lines of an entry of the log, each with what follows it in the file.
abbrev pub heading : Codes → Codes → Codes → Codes
heading number label rest =
    codes "### "
    ++ (number
        ++ (codes ". ["
            ++ (label
                ++ (codes "](https://gateway.feedo.ink/" ++ (label ++ (codes ")\n" ++ rest))))))

abbrev pub domain_line : Codes → Codes → Codes
domain_line domain rest =
    codes "- **Original Domain:** ["
    ++ (domain ++ (codes "](https://" ++ (domain ++ (codes ")\n" ++ rest))))

abbrev pub cid_line : Codes → Codes → Codes
cid_line cid rest = codes "- **CID:** `" ++ (cid ++ (codes "`\n" ++ rest))

abbrev pub path_line : Codes → Codes → Codes
path_line label rest =
    codes "- **Web2 Gateway (Path):** [https://gateway.feedo.ink/"
    ++ (label ++ (codes "](https://gateway.feedo.ink/" ++ (label ++ (codes ")\n" ++ rest))))

abbrev pub subdomain_line : Codes → Codes → Codes
subdomain_line label rest =
    codes "- **Web2 Gateway (Subdomain):** [https://"
    ++ (label
        ++ (codes ".gateway.feedo.ink](https://"
            ++ (label ++ (codes ".gateway.feedo.ink)\n" ++ rest))))

-- `mdLog`, with what follows it in the file.
unfoldable pub md_log : Site → Codes → Codes
unfolding feedo_domain
md_log site rest =
    let label = feedo_domain site.domain in
    heading (decimal site.number) label (
      domain_line site.domain
        (cid_line site.cid (path_line label (subdomain_line (dashed label) (codes "\n" ++ rest)))))

abbrev pub is_not_bracket : ℕ → Bool
is_not_bracket c = not (c == b']')

-- `/- \*\*Original Domain:\*\* \[([^\]]+)\]/g` and `/### (\d+)\./g`
abbrev pub domain_pattern : Pattern
domain_pattern = bracketed (codes "- **Original Domain:** [") is_not_bracket b']'

abbrev pub count_pattern : Pattern
count_pattern = bracketed (codes "### ") is_digit b'.'

unfoldable pub add_all : List Codes → List Codes → List Codes
unfolding add
add_all processed [] = processed
add_all processed (d ∷ ds) = add_all (add processed d) ds

-- `Math.max(…)`
abbrev pub maximum : ℕ → List ℕ → ℕ
maximum m [] = m
maximum m (n ∷ ns) = maximum (if ltb m n then n else m) ns

abbrev pub max_count : ℕ → List Codes → ℕ
max_count count [] = count
max_count count (n ∷ ns) = maximum (value 0 n) (map (value 0) ns)

-- `loadCheckpoints` on the content of the log: the processed domains and the count.
unfoldable pub load_checkpoints : Codes → List Codes → ℕ → List Codes × ℕ
unfolding add_all bracketed match_all value
load_checkpoints content processed count = (
  add_all processed (match_all domain_pattern 0 content),
  max_count count (match_all count_pattern 0 content),
)
