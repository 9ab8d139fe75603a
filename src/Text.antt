-- ===== src/Text.antt =====
-- Text as the sources build it: template literals with numbers, JavaScript's tests on strings, and
-- `encodeURIComponent`.
use feedo.Base.{
  ℕ, zero, suc, ◌+◌, ◌-◌, ◌/◌, ◌%◌, String, ◌<>◌, ◌≡◌, refl, Bool, ◌&&◌, ◌||◌, ltb, leb, ◌==◌,
  if◌then◌else◌,
}
use Prim.Native.Char.{code}
use Prim.Native.String.{slice, [], ◌∷◌}

abbrev digit : ℕ → String
digit d = slice "0123456789" d (d + 1)

-- Decimal digits; a number has at most as many as the fuel allows, see `to_string`.
decimal : ℕ → ℕ → String
decimal zero n = ""
decimal (suc fuel) n =
    let more = decimal fuel (n / 10) <> digit (n % 10) in if ltb n 10 then digit n else more

-- `n.toString()` and `${n}` of a whole number: `suc n` rounds are more than it has digits.
unfoldable pub to_string : ℕ → String
unfolding decimal
to_string n = decimal (suc n) n

unfoldable pub is_alphanumeric : ℕ → Bool
is_alphanumeric n =
    (leb b'A' n && leb n b'Z') || (leb b'a' n && leb n b'z') || (leb b'0' n && leb n b'9')

-- `- _ . ! ~ * ' ( )`
unfoldable pub is_mark : ℕ → Bool
is_mark n =
    n == b'-'
    || n == b'_'
    || n == b'.'
    || n == b'!'
    || n == b'~'
    || n == b'*'
    || n == 39
    || n == 40
    || n == 41

-- The characters that `encodeURIComponent` leaves as they are.
unfoldable pub is_unreserved : ℕ → Bool
unfolding is_alphanumeric is_mark
is_unreserved n = is_alphanumeric n || is_mark n

abbrev pub hex_digit : ℕ → String
hex_digit d = slice "0123456789ABCDEF" d (d + 1)

unfoldable pub escape_byte : ℕ → String
escape_byte b = "%" <> hex_digit (b / 16) <> hex_digit (b % 16)

-- The bytes of a code point in UTF-8, each escaped.
unfoldable pub escape_code : ℕ → String
unfolding escape_byte
escape_code n =
    if ltb n 0x80
    then escape_byte n
    else if ltb n 0x800
    then escape_byte (0xC0 + n / 64) <> escape_byte (0x80 + n % 64)
    else if ltb n 0x10000
    then escape_byte (0xE0 + n / 4096)
      <> escape_byte (0x80 + n / 64 % 64)
      <> escape_byte (0x80 + n % 64)
    else escape_byte (0xF0 + n / 262144)
      <> escape_byte (0x80 + n / 4096 % 64)
      <> escape_byte (0x80 + n / 64 % 64)
      <> escape_byte (0x80 + n % 64)

unfoldable pub encode_uri_component : String → String
unfolding is_unreserved escape_code
encode_uri_component [] = []
encode_uri_component (c ∷ s) =
    (if is_unreserved (code c) then c ∷ [] else escape_code (code c)) <> encode_uri_component s

abbrev hex_small : ℕ → String
hex_small d = slice "0123456789abcdef" d (d + 1)

-- `n.toString(16)`, of a number of at most as many digits as the fuel.
unfoldable pub hexadecimal : ℕ → ℕ → String
hexadecimal zero n = ""
hexadecimal (suc fuel) n =
    let more = hexadecimal fuel (n / 16) <> hex_small (n % 16) in
    if ltb n 16 then hex_small n else more

count : String → ℕ
count [] = 0
count (c ∷ s) = suc (count s)

zeros : ℕ → String
zeros zero = ""
zeros (suc n) = "0" <> zeros n

-- `s.padStart(n, '0')`
unfoldable pub pad_start : ℕ → String → String
unfolding count zeros
pad_start n s = zeros (n - count s) <> s

-- `s.replace('0x', '')`, which removes the first occurrence only.
unfoldable pub without_0x : String → String
without_0x [] = []
without_0x (c ∷ []) = c ∷ []
without_0x (c ∷ d ∷ s) =
    let rest = without_0x (d ∷ s) in if code c == b'0' && code d == b'x' then s else c ∷ rest

-- `path.split('?')[0]`
unfoldable pub before_query : String → String
before_query [] = []
before_query (c ∷ s) = let rest = before_query s in if code c == b'?' then [] else c ∷ rest

to_string_test : to_string 5242880 ≡ "5242880"
unfolding to_string
to_string_test = refl

encode_test : encode_uri_component "a/b?c=é 1" ≡ "a%2Fb%3Fc%3D%C3%A9%201"
unfolding encode_uri_component
encode_test = refl

hexadecimal_test : pad_start 6 (hexadecimal 64 0xBEEF) ≡ "00beef"
unfolding pad_start hexadecimal
hexadecimal_test = refl

without_0x_test : without_0x "a0x10x2" ≡ "a10x2"
unfolding without_0x
without_0x_test = refl
