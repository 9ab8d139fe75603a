-- ===== src/Crypto/Tests.antt =====
-- A cipher whose tag is sixteen zeros, which it checks.
use feedo.Base.{inr, ◌≤◌, ◌<◌, ◌≡◌, refl, [], ◌∷◌, Option, none, some, replicate}
use feedo.Runtime.Wire.{Bytes}
use feedo.Crypto.{Ciphers, curve_order, usage_int, encrypt_data, decrypt_data}
use feedo.Crypto.Framing.{usage_int-range, decrypt_data-encrypt_data}

abbrev unseal : Bytes → Bytes → Bytes → Bytes → Option Bytes
unseal key nonce c [] = none
unseal key nonce c (b ∷ t) = some c

abbrev toy : Ciphers
toy = record {
  hmac_sha256 = λ k s. k;
  seal = λ key nonce content. (content, replicate 16 0);
  unseal = unseal;
  ecies_encrypt = λ k b. some b;
  ecies_decrypt = λ k b. some b;
  to_hex = λ b. "";
  from_hex = λ s. [];
}

usage_int-range_test : (1 ≤ usage_int (0 ∷ [])) × (usage_int (0 ∷ []) < curve_order)
usage_int-range_test = usage_int-range (0 ∷ [])

decrypt_data-encrypt_data_example :
    decrypt_data toy (1 ∷ []) (encrypt_data toy (replicate 12 7) (1 ∷ []) (4 ∷ 5 ∷ []))
    ≡ inr (4 ∷ 5 ∷ [])
decrypt_data-encrypt_data_example =
    decrypt_data-encrypt_data toy (replicate 12 7) (1 ∷ []) (4 ∷ 5 ∷ []) refl refl refl
