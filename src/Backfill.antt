-- ===== src/Backfill.antt =====
-- scripts/indexer/backfill.js: the sites are read back from the log indexed_sites.md, and each is
-- posted to the search node.
pub mod Blocks
pub mod RoundTrip
pub mod Tests
use feedo.Base.{
  ℕ, ◌+◌, ◌-◌, String, ◌<>◌, List, [], ◌∷◌, ◌++◌, Option, none, some, Bool, true, false, ◌&&◌, not,
  length, take, drop, ltb, ◌==◌, if◌then◌else◌, map,
}
use feedo.Scan.{
  Codes, codes, strip, span, closed, Pattern, sized, bracketed, match_first, split_text,
}
use feedo.Indexer.{same_text, is_not_bracket}

-- A site as it is posted.
pub record Entry : Type 0 where
  pub title : Codes
  pub domain : Codes
  pub cid : Codes
  pub description : Codes

-- `[^\]]+` in front of `.feedo]`, which must have a character before it.
abbrev pub suffix : Codes
suffix = codes ".feedo"

abbrev pub only_feedo : Option Codes → Option Codes
only_feedo none = none
only_feedo (some run) =
    if ltb (length suffix) (length run) && same_text (drop (length run - length suffix) run) suffix
    then some run
    else none

abbrev pub bracket_group : Option Codes → Option Codes
bracket_group none = none
bracket_group (some t) = only_feedo (closed b']' (span is_not_bracket t))

-- `/\[([^\]]+\.feedo)\]/`
unfoldable pub feedo_pattern : Pattern
feedo_pattern s = sized (codes "[") (bracket_group (strip (codes "[") s))

-- `/\*\*Original Domain:\*\* \[([^\]]+)\]/`
abbrev pub original_pattern : Pattern
original_pattern = bracketed (codes "**Original Domain:** [") is_not_bracket b']'

abbrev pub is_not_backtick : ℕ → Bool
is_not_backtick c = not (c == b'`')

-- ``/\*\*CID:\*\* `([^`]+)`/``
abbrev pub cid_line_pattern : Pattern
cid_line_pattern = bracketed (codes "**CID:** `") is_not_backtick b'`'

abbrev pub or_else : Option Codes → Codes → Codes
or_else none d = d
or_else (some s) d = s

unfoldable pub description_of : Codes → Codes
description_of domain =
    codes "Decentralized build for "
    ++ (domain ++ codes ". Indexed and archived on the Feedo Network.")

unfoldable pub entry_of : Codes → Entry
unfolding match_first bracketed feedo_pattern description_of
entry_of block =
    let label = or_else (match_first feedo_pattern block) (codes "unknown.feedo") in
    let original = or_else (match_first original_pattern block) label in
    record {
      title = original;
      domain = label;
      cid = or_else (match_first cid_line_pattern block) (codes "unknown");
      description = description_of original;
    }

-- The blocks of the log, from the second part of the split on.
unfoldable pub sites_of : Codes → List Entry
unfolding split_text entry_of
sites_of content = map entry_of (split_text (codes "### ") 0 content).1

-- The text of the document that is posted.
unfoldable pub text_of : Entry → Codes
text_of site =
    site.title ++ (codes " " ++ (site.description ++ codes " decentralized defi protocol"))

-- The loop that posts: `post` says whether the node takes a site. What is left is the sites that
-- were posted, one by one, and `success`.
unfoldable pub push_all : (Entry → Bool) → List Entry → List Entry × ℕ
push_all post [] = ([], 0)
push_all post (site ∷ sites) =
    let (posted, success) = push_all post sites in
    if same_text site.cid (codes "unknown")
    then (posted, success)
    else (site ∷ posted, (if post site then success + 1 else success))
