-- ===== src/Client/Upload.antt =====
-- What `uploadPrivateFile` stores.
use feedo.Base.{
  inr, ℕ, ◌+◌, ◌*◌, ◌≤◌, ◌≡◌, refl, ap, ◌∙◌, String, List, map, Option, some, true, truthy, length,
  All,
}
use feedo.Json.{Json, Codec}
use feedo.Runtime.Wire.{Bytes, Call}
use feedo.Runtime.Async.{Env, Outcome, ok}
use feedo.Runtime.Bounds.{Contract, Ends}
use feedo.Runtime.Pool.Rotation.{rotations}
use feedo.Router.State.{NodeRouter}
use feedo.Router.Select.{chosen}
use feedo.Wallet.{Ethers}
use feedo.Crypto.{Ciphers, decrypt_symmetric_key_ecies}
use feedo.Storage.Contract.{Honest}
use feedo.Storage.Transfer.{IsUsable}
use feedo.Storage.Upload.{upload_parts-Ends}
use feedo.Storage.Chunks.{chunks_of}
use feedo.Storage.Files.{worker_limit, manifest}
use feedo.Consensus.Ledger.{Ends-ok}
use feedo.Client.{encrypt_chunks, upload_encrypted}

module _ (address_of : Bytes → String) (codec : Codec) (ciphers : Ciphers) (nonces : ℕ → Bytes)
    (sym_key : Bytes) where
  -- The encrypted chunks of a file.
  abbrev pub sealed_chunks : ℕ → Bytes → List Bytes
  sealed_chunks c content = encrypt_chunks ciphers nonces sym_key 0 (chunks_of c content)

  -- The manifest over their addresses, and as it is stored.
  abbrev pub private_manifest : ℕ → Bytes → Json
  private_manifest c content =
      manifest "feedo_encrypted_manifest" "encrypted_file.bin" (length content) c
        (map (λ b. some (address_of b)) (sealed_chunks c content))

  abbrev pub private_form : ℕ → Bytes → Bytes
  private_form c content = codec.stringify (private_manifest c content)

-- A call that returns has a result.
pub returned :
    {S W A : Type 0} (P : A → Type 0) (r : Outcome A × S × W)
    → Ends P (λ _. ⊥) ⊥ r.0
    → (a : A) × (r ≡ (ok a, r.1, r.2)) × P a
returned P r h = let (a, is, p) = Ends-ok P r.0 h in (a, ap (λ o. (o, r.1, r.2)) is, p)

module _ (env : Env) (ethers : Ethers) (ciphers : Ciphers) (codec : Codec)
    (key usage_key did : Option String) (address_of : Bytes → String) (Stored : Bytes → Type 0)
    (usable : IsUsable ethers key)
    (honest : (c : Call) (w : env.World) → Honest address_of Stored ⊥ c (env.serve c w).0)
    (nonces : ℕ → Bytes) (sym_key : Bytes) where
  abbrev H : Contract
  H = Honest address_of Stored ⊥

  pub upload_encrypted-ok :
      (c rounds : ℕ) (content : Bytes) (s : NodeRouter) (w : env.World)
      → Stored (private_form address_of codec ciphers nonces sym_key c content)
      → All Stored (sealed_chunks address_of codec ciphers nonces sym_key c content)
      → length (sealed_chunks address_of codec ciphers nonces sym_key c content) * 30 + worker_limit
        ≤ rounds
      → (s' : NodeRouter) × (w' : env.World) × (upload_encrypted env ethers ciphers codec key
            usage_key did c
            (rotations rounds worker_limit)
            content
            (sealed_chunks address_of codec ciphers nonces sym_key c content)
            s
            w
          ≡ (
            ok (address_of (private_form address_of codec ciphers nonces sym_key c content)),
            s',
            w',
          ))
  upload_encrypted-ok c rounds content s w whole parts enough =
      let chunks = sealed_chunks address_of codec ciphers nonces sym_key c content in
      let schedule = rotations rounds worker_limit in
      let r =
        upload_encrypted env ethers ciphers codec key usage_key did c schedule content chunks s w in
      let (h, returns, is) =
        returned
          (λ h. h ≡ address_of (private_form address_of codec ciphers nonces sym_key c content)) r
          (upload_parts-Ends env ethers key codec address_of Stored ⊥ usable honest ⊥ schedule
            "encrypted_part" chunks
            (manifest "feedo_encrypted_manifest" "encrypted_file.bin" (length content) c) s w whole
            parts (inr (rounds, refl, enough))) in
      (r.1, r.2, returns ∙ ap (λ h. (ok h, r.1, r.2)) is)

-- A sealed key that the owner of `k` can open.
abbrev pub IsSealed : Ciphers → String → Bytes → String → Type 0
IsSealed ciphers k sym_key sealed =
    (truthy sealed ≡ true) × (decrypt_symmetric_key_ecies ciphers k sealed ≡ inr sym_key)

pub chosen-some : (k : String) → truthy k ≡ true → chosen (some k) ≡ some k
chosen-some k set = rw set refl

pub IsUsable-key :
    (ethers : Ethers) (k address : String)
    → truthy k ≡ true
    → ethers.address k ≡ some address
    → IsUsable ethers (some k)
IsUsable-key ethers k address set known j is =
    let same : j ≡ k = cc (chosen-some k set) in (address, rw same known)
