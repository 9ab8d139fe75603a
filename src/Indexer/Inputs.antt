-- ===== src/Indexer/Inputs.antt =====
-- What a task takes from its inputs: the host name of a URL, and the content id in an output.
use feedo.Base.{
  ℕ, ◌<◌, ◌≡◌, subst, [], ◌∷◌, some, inl, inr, ◌&&◌, length, arith, ◌==◌, Bool-cases, Option-cases,
}
use feedo.Scan.{Codes, codes, strip, span, match_first}
use feedo.Indexer.{without_www, is_hex, is_either, is_space, not_empty, after_spaces, cid_pattern}
use feedo.Indexer.Hosts.{IsHost, IsHex}

strip-IsHost : (p s r : Codes) → strip p s ≡ some r → IsHost s → IsHost r
strip-IsHost [] s r e h = let same : s ≡ r = cc in subst IsHost same h
strip-IsHost (c ∷ p) [] r e h = cc
strip-IsHost (c ∷ p) (d ∷ s) r e (hd, h) = elim (Bool-cases (d == c)) [
  | inl same ↦ strip-IsHost p s r (rw same at e) h
  | inr other ↦ let bad = rw other at e in cc
]

pub without_www-IsHost : (h : Codes) → IsHost h → IsHost (without_www h)
unfolding without_www
without_www-IsHost h ok = elim (Option-cases (strip (codes "www.") h)) [
  | inl plain ↦ rw plain ok
  | inr (rest, www) ↦ rw www (strip-IsHost (codes "www.") h rest www ok)
]

span-IsHex : (s : Codes) → IsHex (span is_hex s).0
span-IsHex [] = tt
span-IsHex (c ∷ s) = elim (Bool-cases (is_hex c)) [
  | inl hex ↦ rw hex (hex, span-IsHex s)
  | inr other ↦ rw other tt
]

abbrev pub IsCid : Codes → Type 0
IsCid cid = IsHex cid × (0 < length cid)

not_empty-IsCid : (s cid : Codes) (size : ℕ) → IsHex s → not_empty s ≡ some (cid, size) → IsCid cid
not_empty-IsCid [] cid size h e = cc
not_empty-IsCid (c ∷ s) cid size h e =
    let same : c ∷ s ≡ cid = cc in subst IsCid same (h, omega arith)

after_spaces-IsCid :
    (x : Codes × Codes) (cid : Codes) (size : ℕ) → after_spaces x ≡ some (cid, size) → IsCid cid
after_spaces-IsCid ([], rest) cid size e = cc
after_spaces-IsCid (c ∷ spaces, rest) cid size e =
    not_empty-IsCid (span is_hex rest).0 cid size (span-IsHex rest) e

cid_pattern-IsCid : (s cid : Codes) (size : ℕ) → cid_pattern s ≡ some (cid, size) → IsCid cid
unfolding cid_pattern
cid_pattern-IsCid [] cid size e = cc
cid_pattern-IsCid (a ∷ []) cid size e = cc
cid_pattern-IsCid (a ∷ b ∷ []) cid size e = cc
cid_pattern-IsCid (a ∷ b ∷ c ∷ []) cid size e = cc
cid_pattern-IsCid (a ∷ b ∷ c ∷ d ∷ s) cid size e =
    elim (Bool-cases
      (is_either b'C' b'c' a && is_either b'I' b'i' b && is_either b'D' b'd' c && d == b':')) [
        | inl found ↦ after_spaces-IsCid (span is_space s) cid size (rw found at e)
        | inr other ↦ let bad = rw other at e in cc
      ]

pub match_first-IsCid : (s cid : Codes) → match_first cid_pattern s ≡ some cid → IsCid cid
unfolding match_first
match_first-IsCid [] cid e = cc
match_first-IsCid (c ∷ s) cid e = elim (Option-cases (cid_pattern (c ∷ s))) [
  | inl later ↦ match_first-IsCid s cid (rw (later, match_first) at e)
  | inr ((run, size), here) ↦
      let e' = rw (here, match_first) at e in
      let same : run ≡ cid = cc in subst IsCid same (cid_pattern-IsCid (c ∷ s) run size here)
]
