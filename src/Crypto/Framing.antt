-- ===== src/Crypto/Framing.antt =====
-- The layout of encrypted data, nonce, ciphertext and tag, and the range of the usage key.
use feedo.Base.{
  inr, ◌+◌, ◌-◌, ◌≤◌, ◌<◌, ◌≡◌, refl, ◌++◌, some, false, length, take, drop, ltb, le→ltb, arith,
  take_left, drop_left, length-append, append_assoc, ap, ◌∙◌,
}
use feedo.Runtime.Wire.{Bytes}
use feedo.Crypto.{Ciphers, curve_order, usage_int, encrypt_data, decrypt_data}

-- The number of the derived usage key is at least 1 and below the order of the curve, whatever the
-- digest.
pub usage_int-range : (digest : Bytes) → (1 ≤ usage_int digest) × (usage_int digest < curve_order)
unfolding usage_int
usage_int-range digest = ground arith

module _ (ciphers : Ciphers) where
  -- Data in three parts of the right lengths is taken apart into them.
  decrypt_data_of_parts :
      (key nonce c t content : Bytes)
      → length nonce ≡ 12
      → length t ≡ 16
      → ciphers.unseal key nonce c t ≡ some content
      → decrypt_data ciphers key (nonce ++ c ++ t) ≡ inr content
  unfolding decrypt_data
  decrypt_data_of_parts key nonce c t content twelve sixteen opens =
      let size : length (nonce ++ c ++ t) ≡ 12 + length c + 16 =
        omega (arith, length-append (nonce ++ c) t, length-append nonce c) in
      let long : ltb (length (nonce ++ c ++ t)) 28 ≡ false =
        le→ltb (length (nonce ++ c ++ t)) 28 (omega arith) in
      let tag : drop (12 + length c + 16 - 16) (nonce ++ c ++ t) ≡ t =
        drop_left (nonce ++ c) t (12 + length c + 16 - 16) (omega (arith, length-append nonce c)) in
      let all : nonce ++ c ++ t ≡ nonce ++ (c ++ t) = append_assoc nonce c t in
      let rest : drop 12 (nonce ++ c ++ t) ≡ c ++ t =
        ap (drop 12) all ∙ drop_left nonce (c ++ t) 12 twelve in
      let head : take 12 (nonce ++ c ++ t) ≡ nonce =
        ap (take 12) all ∙ take_left nonce (c ++ t) 12 twelve in
      let body : 12 + length c + 16 - 16 - 12 ≡ length c = omega arith in
      rw (long, size, tag, head, rest, body, take_left c t (length c) refl, opens) refl

  -- If the nonce has 12 bytes, and the cipher gives the data a tag of 16 bytes and opens what it
  -- sealed, then `decryptData` of what `encryptData` returns for the data is the data.
  pub decrypt_data-encrypt_data :
      (nonce key content : Bytes)
      → length nonce ≡ 12
      → length (ciphers.seal key nonce content).1 ≡ 16
      → ciphers.unseal key nonce
          (ciphers.seal key nonce content).0
          (ciphers.seal key nonce content).1
        ≡ some content
      → decrypt_data ciphers key (encrypt_data ciphers nonce key content) ≡ inr content
  unfolding encrypt_data
  decrypt_data-encrypt_data nonce key content twelve sixteen opens =
      let (c, t) = ciphers.seal key nonce content in
      decrypt_data_of_parts key nonce c t content twelve sixteen opens
