-- ===== src/Indexer/Hosts.antt =====
-- Which characters the variable parts of a log entry have.
use feedo.Base.{
  ℕ, ◌≡◌, refl, [], ◌∷◌, ◌++◌, Bool, true, false, ◌&&◌, ◌||◌, inl, inr, leb, ◌==◌, arith,
  Bool-cases, All,
}
use feedo.Scan.{Codes, codes, is_digit}
use feedo.Scan.Laws.{Lacks}
use feedo.Scan.Numbers.{All-append}
use feedo.Indexer.{has_dot, before_last_dot, feedo_domain, dashed, is_hex, is_not_bracket}

-- The characters of a host name.
abbrev pub is_host : ℕ → Bool
is_host c =
    is_digit c
    || (leb b'a' c && leb c b'z')
    || (leb b'A' c && leb c b'Z')
    || c == b'.'
    || c == b'-'
    || c == b'_'

abbrev pub IsHost : Codes → Type 0
IsHost = All (λ c. is_host c ≡ true)

abbrev pub IsHex : Codes → Type 0
IsHex = All (λ c. is_hex c ≡ true)

pub Lacks-of_class :
    (class : ℕ → Bool) (a : ℕ) (w : Codes)
    → class a ≡ false
    → All (λ c. class c ≡ true) w
    → Lacks a w
Lacks-of_class class a [] out h = tt
Lacks-of_class class a (c ∷ w) out (h, hs) = (other, Lacks-of_class class a w out hs)
  where
    other : (c == a) ≡ false
    other = elim (Bool-cases (c == a)) [
      | inr no_match ↦ no_match
      | inl same ↦ let e : c ≡ a = ground arith in let h' = rw e at h in cc
    ]

pub before_last_dot-IsHost : (d : Codes) → IsHost d → IsHost (before_last_dot d)
unfolding before_last_dot
before_last_dot-IsHost [] h = tt
before_last_dot-IsHost (c ∷ s) (h, hs) = elim (Bool-cases (has_dot s)) [
  | inl dot ↦ rw dot (h, before_last_dot-IsHost s hs)
  | inr none_left ↦ rw none_left tt
]

host_all : Codes → Bool
host_all [] = true
host_all (c ∷ s) = is_host c && host_all s

IsHost-of_all : (w : Codes) → host_all w ≡ true → IsHost w
unfolding host_all
IsHost-of_all [] h = tt
IsHost-of_all (c ∷ s) h = elim (Bool-cases (is_host c)) [
  | inl good ↦ (good, IsHost-of_all s (rw good at h))
  | inr bad ↦ let e = rw bad at h in cc
]

pub feedo_domain-IsHost : (d : Codes) → IsHost d → IsHost (feedo_domain d)
unfolding feedo_domain host_all
feedo_domain-IsHost d h =
    All-append _ (codes "snapshot.") (before_last_dot d ++ codes ".feedo")
      (IsHost-of_all (codes "snapshot.") refl)
      (All-append _ (before_last_dot d) (codes ".feedo") (before_last_dot-IsHost d h)
        (IsHost-of_all (codes ".feedo") refl))

pub dashed-IsHost : (d : Codes) → IsHost d → IsHost (dashed d)
dashed-IsHost [] h = tt
dashed-IsHost (c ∷ s) (h, hs) = elim (Bool-cases (c == b'.')) [
  | inl dot ↦ rw dot (refl, dashed-IsHost s hs)
  | inr other ↦ rw other (h, dashed-IsHost s hs)
]

pub is_not_bracket_of_Lacks : (w : Codes) → Lacks b']' w → All (λ c. is_not_bracket c ≡ true) w
is_not_bracket_of_Lacks [] h = tt
is_not_bracket_of_Lacks (c ∷ w) (h, hs) = (rw h refl, is_not_bracket_of_Lacks w hs)

before_last_dot-append :
    (name tld : Codes) → has_dot tld ≡ false → before_last_dot (name ++ b'.' ∷ tld) ≡ name
unfolding before_last_dot
before_last_dot-append [] tld h = rw h refl
before_last_dot-append (c ∷ name) tld h =
    rw (has_dot_inside name tld, before_last_dot-append name tld h) refl
  where
    has_dot_inside : (name tld : Codes) → has_dot (name ++ b'.' ∷ tld) ≡ true
    has_dot_inside [] tld = refl
    has_dot_inside (c ∷ name) tld = elim (Bool-cases (c == b'.')) [
      | inl dot ↦ rw dot refl
      | inr other ↦ rw (other, has_dot_inside name tld) refl
    ]

-- Two domains that differ only behind their last dot are published under the same feedo domain.
pub feedo_domain_same :
    (name tld tld' : Codes)
    → has_dot tld ≡ false
    → has_dot tld' ≡ false
    → feedo_domain (name ++ b'.' ∷ tld) ≡ feedo_domain (name ++ b'.' ∷ tld')
unfolding feedo_domain
feedo_domain_same name tld tld' h h' =
    rw (before_last_dot-append name tld h, before_last_dot-append name tld' h') refl
