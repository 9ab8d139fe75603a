-- ===== src/Scan/Numbers.antt =====
-- The decimal digits of a number are read back as the number.
use feedo.Base.{
  ℕ, zero, suc, ◌+◌, ◌-◌, ◌*◌, ◌/◌, ◌%◌, ◌<◌, ◌≡◌, refl, List, [], ◌∷◌, ◌++◌, true, inl, inr, ltb,
  ltb→lt, ltb→le, arith, Bool-cases, All, length, length-append,
}
use feedo.Scan.{Codes, digits, decimal, is_digit, value}

value-append : (s : Codes) (n c : ℕ) → value n (s ++ c ∷ []) ≡ value n s * 10 + (c - b'0')
unfolding value
value-append [] n c = refl
value-append (d ∷ s) n c = value-append s (n * 10 + (d - b'0')) c

value-digits : (fuel n : ℕ) → n < fuel → value 0 (digits fuel n) ≡ n
unfolding digits
value-digits zero n h = absurd (omega arith)
value-digits (suc fuel) n h = elim (Bool-cases (ltb n 10)) [
  | inl small ↦ rw small (unfold value in omega arith)
  | inr large ↦
      let big = ltb→le n 10 large in
      let ih = value-digits fuel (n / 10) (omega arith) in
      rw (large, value-append, ih) (omega arith)
]

pub value-decimal : (n : ℕ) → value 0 (decimal n) ≡ n
value-decimal n = value-digits (suc n) n (omega arith)

module _ {ℓ κ} {A : Type ℓ} (P : A → Type κ) where
  pub All-append : (xs ys : List A) → All P xs → All P ys → All P (xs ++ ys)
  All-append [] ys h k = k
  All-append (x ∷ xs) ys (p, h) k = (p, All-append xs ys h k)

digits-is_digit : (fuel n : ℕ) → All (λ c. is_digit c ≡ true) (digits fuel n)
unfolding digits
digits-is_digit zero n = tt
digits-is_digit (suc fuel) n = elim (Bool-cases (ltb n 10)) [
  | inl small ↦ let lt = ltb→lt n 10 small in rw small (ground arith, tt)
  | inr large ↦ rw large (
      All-append (λ c. is_digit c ≡ true) (digits fuel (n / 10)) ((b'0' + n % 10) ∷ [])
        (digits-is_digit fuel (n / 10)) (ground arith, tt))
]

pub decimal-is_digit : (n : ℕ) → All (λ c. is_digit c ≡ true) (decimal n)
decimal-is_digit n = digits-is_digit (suc n) n

pub length-decimal : (n : ℕ) → 0 < length (decimal n)
unfolding digits
length-decimal n = elim (Bool-cases (ltb n 10)) [
  | inl small ↦ rw small (omega arith)
  | inr large ↦ rw large (omega (arith, length-append (digits n (n / 10)) ((b'0' + n % 10) ∷ [])))
]
