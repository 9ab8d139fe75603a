-- ===== src/Crypto.antt =====
-- sdk/typescript/src/modules/crypto.ts: `class FeedoCrypto`. The algorithms of node's crypto and of
-- eciesjs are a parameter.
pub mod Framing
pub mod Tests
use feedo.Base.{
  ◌⊎◌, inl, inr, ℕ, zero, suc, ◌+◌, ◌-◌, ◌*◌, ◌/◌, ◌%◌, String, ◌<>◌, List, [], ◌∷◌, ◌++◌, Option,
  none, some, length, take, drop, ltb, ◌==◌, if◌then◌else◌,
}
use feedo.Text.{without_0x, hexadecimal, pad_start}
use feedo.Runtime.Wire.{Bytes, Error, message}

-- `seal key nonce data` is the ciphertext and the tag of AES-256-GCM; `unseal` throws (`none`) on a
-- tag that does not fit.
pub record Ciphers : Type 0 where
  pub hmac_sha256 : Bytes → String → Bytes
  pub seal : Bytes → Bytes → Bytes → Bytes × Bytes
  pub unseal : Bytes → Bytes → Bytes → Bytes → Option Bytes
  pub ecies_encrypt : String → Bytes → Option Bytes
  pub ecies_decrypt : String → Bytes → Option Bytes
  pub to_hex : Bytes → String
  pub from_hex : String → Bytes

-- `random_bytes` is `crypto.randomBytes`.
abbrev pub generate_symmetric_key : (ℕ → Bytes) → Bytes
generate_symmetric_key random_bytes = random_bytes 32

abbrev pub Result : Type 0 → Type 0
Result A = Error ⊎ A

abbrev from_cipher : {A : Type 0} → Option A → Result A
from_cipher none = inl (message "Unsupported state or unable to authenticate data")
from_cipher (some a) = inr a

-- `BigInt('0x' + digest.toString('hex'))`
unfoldable pub big_endian : ℕ → Bytes → ℕ
big_endian acc [] = acc
big_endian acc (b ∷ bs) = big_endian (acc * 256 + b) bs

-- `n`, the order of secp256k1.
abbrev pub curve_order : ℕ
curve_order = 0xFFFFFFFFFFFFFFFFFFFFFFFFFFFFFFFEBAAEDCE6AF48A03BBFD25E8CD0364141

-- `usageInt`, from the digest.
unfoldable pub usage_int : Bytes → ℕ
unfolding big_endian
usage_int digest = let u = big_endian 0 digest % curve_order in if u == 0 then 1 else u

abbrev tag_bytes : ℕ
tag_bytes = 16

abbrev nonce_bytes : ℕ
nonce_bytes = 12

module _ (ciphers : Ciphers) where
  -- `privateKey`; its `address` is ethers'.
  unfoldable pub derive_usage_key : String → String
  unfolding usage_int
  derive_usage_key wallet_private_key_hex =
      let digest =
        ciphers.hmac_sha256 (ciphers.from_hex (without_0x wallet_private_key_hex))
          "feedo/usage-key/v1" in
      "0x" <> pad_start 64 (hexadecimal 64 (usage_int digest))

  -- The nonce is 12 random bytes.
  unfoldable pub encrypt_data : Bytes → Bytes → Bytes → Bytes
  encrypt_data nonce key content =
      let (ciphertext, tag) = ciphers.seal key nonce content in nonce ++ ciphertext ++ tag

  unfoldable pub decrypt_data : Bytes → Bytes → Result Bytes
  decrypt_data key encrypted =
      let n = length encrypted in
      let nonce = take nonce_bytes encrypted in
      let tag = drop (n - tag_bytes) encrypted in
      let ciphertext = take (n - tag_bytes - nonce_bytes) (drop nonce_bytes encrypted) in
      if ltb n 28
      then inl (message "Data is too short to be AES-GCM encrypted")
      else from_cipher (ciphers.unseal key nonce ciphertext tag)

  unfoldable pub encrypt_symmetric_key_ecies : String → Bytes → Result String
  encrypt_symmetric_key_ecies public_key_hex key =
      elim (ciphers.ecies_encrypt (without_0x public_key_hex) key) [
        | none ↦ inl (message "Cannot encrypt for this public key")
        | some encrypted ↦ inr (ciphers.to_hex encrypted)
      ]

  unfoldable pub decrypt_symmetric_key_ecies : String → String → Result Bytes
  decrypt_symmetric_key_ecies private_key_hex encrypted_key_hex = from_cipher (
      ciphers.ecies_decrypt (without_0x private_key_hex)
        (ciphers.from_hex (without_0x encrypted_key_hex)))
