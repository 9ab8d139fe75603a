-- ===== src/Scan.antt =====
-- Text as the list of its code points, and the few patterns that the scripts match it with.
pub mod Laws
pub mod Numbers
use feedo.Base.{
  ℕ, zero, suc, ◌+◌, ◌-◌, ◌*◌, ◌/◌, ◌%◌, String, List, [], ◌∷◌, ◌++◌, Option, none, some, Bool,
  true, false, ◌&&◌, length, ltb, leb, ◌==◌, if◌then◌else◌,
}
use Prim.Native.Char.{code}

abbrev pub Codes : Type 0
Codes = List ℕ

abbrev pub codes : String → Codes
codes String.[] = []
codes (String.◌∷◌ c s) = code c ∷ codes s

-- What follows a literal.
abbrev pub strip : Codes → Codes → Option Codes
strip [] s = some s
strip (c ∷ p) [] = none
strip (c ∷ p) (d ∷ s) = let rest = strip p s in if d == c then rest else none

-- The longest run of a class of characters, and what follows it.
abbrev pub span : (ℕ → Bool) → Codes → Codes × Codes
span class [] = ([], [])
span class (c ∷ s) =
    let (run, rest) = span class s in if class c then (c ∷ run, rest) else ([], c ∷ s)

abbrev pub closed : ℕ → Codes × Codes → Option Codes
closed close ([], rest) = none
closed close (c ∷ run, []) = none
closed close (c ∷ run, d ∷ rest) = if d == close then some (c ∷ run) else none

-- A pattern that is tried at a position gives what its group has captured, and how long the whole
-- match is.
abbrev pub Pattern : Type 0
Pattern = Codes → Option (Codes × ℕ)

abbrev pub group : (ℕ → Bool) → ℕ → Option Codes → Option Codes
group class close none = none
group class close (some t) = closed close (span class t)

abbrev pub sized : Codes → Option Codes → Option (Codes × ℕ)
sized lead none = none
sized lead (some run) = some (run, length lead + length run + 1)

-- The pattern `lead([class]+)close`, where `close` is one character that is not in the class, so
-- that the longest run is the only one that can match.
unfoldable pub bracketed : Codes → (ℕ → Bool) → ℕ → Pattern
bracketed lead class close s = sized lead (group class close (strip lead s))

-- `matchAll`: the matches from left to right, each behind the one before it. The number counts the
-- characters that the last match has used up.
unfoldable pub match_all : Pattern → ℕ → Codes → List Codes
match_all pattern skip [] = []
match_all pattern (suc k) (c ∷ s) = match_all pattern k s
match_all pattern zero (c ∷ s) = elim (pattern (c ∷ s)) [
  | none ↦ match_all pattern zero s
  | some (run, size) ↦ run ∷ match_all pattern (size - 1) s
]

-- `match` without the flag `g`: the first match.
unfoldable pub match_first : Pattern → Codes → Option Codes
match_first pattern [] = none
match_first pattern (c ∷ s) = elim (pattern (c ∷ s)) [
  | none ↦ match_first pattern s
  | some (run, size) ↦ some run
]

-- `split`: the first part and the others.
unfoldable pub split_text : Codes → ℕ → Codes → Codes × List Codes
split_text sep skip [] = ([], [])
split_text sep (suc k) (c ∷ s) = split_text sep k s
split_text sep zero (c ∷ s) = elim (strip sep (c ∷ s)) [
  | none ↦ let (part, parts) = split_text sep zero s in (c ∷ part, parts)
  | some t ↦ let (part, parts) = split_text sep (length sep - 1) s in ([], part ∷ parts)
]

-- The digits of a number, most significant first; `suc n` rounds are more than it has digits.
unfoldable pub digits : ℕ → ℕ → Codes
digits zero n = []
digits (suc fuel) n =
    let more = digits fuel (n / 10) in
    if ltb n 10 then (b'0' + n) ∷ [] else more ++ (b'0' + n % 10) ∷ []

abbrev pub decimal : ℕ → Codes
decimal n = digits (suc n) n

abbrev pub is_digit : ℕ → Bool
is_digit c = leb b'0' c && leb c b'9'

-- `parseInt(s, 10)` of digits.
unfoldable pub value : ℕ → Codes → ℕ
value n [] = n
value n (c ∷ s) = value (n * 10 + (c - b'0')) s
