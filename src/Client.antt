-- ===== src/Client.antt =====
-- sdk/typescript/src/client.ts: `class FeedoClient`, the private files over the modules.
pub mod Chunks
pub mod Upload
pub mod RoundTrip
pub mod Grantee
pub mod Tests
use feedo.Base.{
  ◌⊎◌, inl, inr, ℕ, suc, ◌*◌, String, ◌<>◌, List, [], ◌∷◌, Option, none, some, Bool, true, false,
  ◌&&◌, length, ltb, get_elem?, str_eq, truthy, if◌then◌else◌,
}
use feedo.Json.{Json, null, str, obj, Fields, get_field, is_true, Codec}
use feedo.Runtime.Wire.{Bytes, Error, message, invalid_key, type_error, Parsed, nodes, other}
use feedo.Runtime.Async.{done, fail, ◌>>=◌, Env, run}
use feedo.Runtime.Session.{and_then, give, throw, attempt}
use feedo.Router.State.{FeedoNetworkConfig, NodeRouter, new_router}
use feedo.Router.Discover.{Action}
use feedo.Router.Select.{chosen}
use feedo.Wallet.{Ethers, did_of}
use feedo.Crypto.{
  Ciphers, Result, encrypt_data, decrypt_data, encrypt_symmetric_key_ecies,
  decrypt_symmetric_key_ecies,
}
use feedo.Storage.Requests.{download_single_chunk}
use feedo.Storage.Chunks.{chunks_of}
use feedo.Storage.Files.{
  Method, manifest_limit, manifest, parsed_chunks, entry_text, join_chunks, joined, transfer_all,
  upload_chunk, upload_manifest, download_file,
}
use feedo.Consensus.{grant_file_access, get_file_access}
use feedo.Search.{index_image, index_private_document}

-- The modules hold the same router; the storage module has the private key alone.
pub record FeedoClient : Type 0 where
  pub router : NodeRouter
  pub private_key : Option String
  pub usage_key : Option String
  pub did : Option String

unfoldable pub new_client : Option FeedoNetworkConfig → FeedoClient
unfolding new_router
new_client none = record {
  router = new_router none;
  private_key = none;
  usage_key = none;
  did = none;
}
new_client (some config) = record {
  router = new_router (some config);
  private_key = config.private_key;
  usage_key = config.usage_key;
  did = config.did;
}

-- `res.encrypted_symmetric_key`, if it is set; `replace` fails on what is no text.
unfoldable pub granted_key : String → Parsed → Result String
granted_key denied (nodes ns) = inl (message denied)
granted_key denied (other null) = inl type_error
granted_key denied (other (obj fields)) = elim (get_field "encrypted_symmetric_key" fields) [
  | none ↦ inl (message denied)
  | some (str s) ↦ if truthy s then inr s else inl (message denied)
  | some v ↦ if is_true v then inl type_error else inl (message denied)
]
granted_key denied (other v) = inl (message denied)

-- Each chunk is sealed with a nonce of its own, `nonces k`.
unfoldable pub encrypt_chunks : Ciphers → (ℕ → Bytes) → Bytes → ℕ → List Bytes → List Bytes
unfolding encrypt_data
encrypt_chunks ciphers nonces key k [] = []
encrypt_chunks ciphers nonces key k (b ∷ bs) =
    encrypt_data ciphers (nonces k) key b ∷ encrypt_chunks ciphers nonces key (suc k) bs

-- 30 MiB; a larger file is not indexed.
abbrev pub index_limit : ℕ
index_limit = 31457280

-- `metadata.type === "image"`
unfoldable pub is_image : Fields → Bool
is_image metadata = elim (get_field "type" metadata) [ some (str s) ↦ str_eq s "image" | _ ↦ false ]

module _ (env : Env) (ethers : Ethers) (ciphers : Ciphers) (codec : Codec)
    (private_key usage_key did : Option String) where
  abbrev pub Of : Type 0 → Type 0
  Of = Method env ethers private_key codec

  abbrev pub or_throw : {A : Type 0} → Result A → Of A
  or_throw (inl e) = throw env NodeRouter e
  or_throw (inr a) = give env NodeRouter a

  -- `new ethers.Wallet(privateKey)`, with the error where there is no key: the key and the DID.
  abbrev pub at_address : {A : Type 0} → (String → Of A) → Option String → Of A
  at_address f none = throw env NodeRouter invalid_key
  at_address f (some address) = f (did_of address)

  abbrev pub at_key : {A : Type 0} → String → (String → String → Of A) → Option String → Of A
  at_key missing f none = throw env NodeRouter (message missing)
  at_key missing f (some key) = at_address (f key) (ethers.address key)

  abbrev pub with_wallet : {A : Type 0} → String → (String → String → Of A) → Of A
  with_wallet missing f = at_key missing f (chosen private_key)

  abbrev pub upload_encrypted : ℕ → List ℕ → Bytes → List Bytes → Of String
  upload_encrypted c schedule file_buffer chunks =
      and_then env NodeRouter
        (transfer_all env ethers private_key codec
          (upload_chunk env ethers private_key codec "encrypted_part" chunks) (length chunks)
          schedule)
        λ hashes.
          upload_manifest env ethers private_key codec
            (manifest "feedo_encrypted_manifest" "encrypted_file.bin" (length file_buffer) c hashes)

  -- The indexing at the end. The text of the file, and the hexadecimal text of the key, are the
  -- host's.
  abbrev index_as_image : Bytes → Fields → String → Of (Unit {0})
  index_as_image sym_key metadata hash_id =
      and_then env NodeRouter
        (run env (
          index_image ethers private_key usage_key did hash_id metadata
            (some (ciphers.to_hex sym_key)) none))
        λ _. give env NodeRouter tt

  -- Whatever is thrown is caught.
  abbrev index_as_text : String → Fields → String → Of (Unit {0})
  index_as_text text metadata hash_id =
      attempt env NodeRouter
        (and_then env NodeRouter
          (run env
            (index_private_document ethers private_key usage_key did hash_id text metadata none))
          λ _. give env NodeRouter tt)
        λ _. give env NodeRouter tt

  unfoldable pub index_upload : Bytes → Bytes → Fields → (Bytes → String) → String → Of (Unit {0})
  unfolding is_image index_image index_private_document
  index_upload file_buffer sym_key metadata text_decoder hash_id =
      if ltb index_limit (length file_buffer)
      then give env NodeRouter tt
      else if is_image metadata
      then index_as_image sym_key metadata hash_id
      else index_as_text (text_decoder file_buffer) metadata hash_id

  abbrev or_own : Option String → String → String
  or_own grantee mine = elim (chosen grantee) [ none ↦ mine | some k ↦ k ]

  abbrev target_did : Option String → String → String
  target_did grantee mine = elim (chosen grantee) [ none ↦ mine | some k ↦ "unknown" ]

  -- The symmetric key, sealed for the grantee, is granted with a signature of the owner.
  unfoldable pub grant_upload : Bytes → Option String → String → String → String → Of Parsed
  grant_upload sym_key grantee key my_did hash_id =
      let mine = ethers.public_key key in
      let target = target_did grantee my_did in
      and_then env NodeRouter
        (or_throw (encrypt_symmetric_key_ecies ciphers (or_own grantee mine) sym_key))
        λ sealed. run env (
          grant_file_access hash_id target sealed mine
            (ethers.sign key (hash_id <> target <> sealed)))

  -- What follows the upload of the manifest.
  unfoldable pub share_upload :
      Bytes
      → (Bytes → String)
      → Bytes
      → Option String
      → Bool
      → Fields
      → String
      → String
      → String
      → Of String
  share_upload sym_key text_decoder file_buffer grantee index metadata key my_did hash_id =
      and_then env NodeRouter (grant_upload sym_key grantee key my_did hash_id) λ _.
        and_then env NodeRouter
          (if index && str_eq (target_did grantee my_did) my_did
            then index_upload file_buffer sym_key metadata text_decoder hash_id
            else give env NodeRouter tt)
          λ _. give env NodeRouter hash_id

  -- The symmetric key and the nonces are random bytes.
  unfoldable pub upload_private_file :
      ℕ
      → List ℕ
      → Bytes
      → (ℕ → Bytes)
      → (Bytes → String)
      → Bytes
      → Option String
      → Bool
      → Fields
      → Of String
  upload_private_file c schedule sym_key nonces text_decoder file_buffer grantee index metadata =
      with_wallet "Private key required to upload private files" λ key my_did.
        and_then env NodeRouter
          (upload_encrypted c schedule file_buffer
            (encrypt_chunks ciphers nonces sym_key 0 (chunks_of c file_buffer)))
          (share_upload sym_key text_decoder file_buffer grantee index metadata key my_did)

  abbrev decrypted : Result Bytes → Action Bytes
  decrypted (inl e) = fail e
  decrypted (inr b) = done b

  unfoldable pub download_encrypted_chunk : Bytes → List Json → ℕ → Action Bytes
  unfolding decrypt_data
  download_encrypted_chunk sym_key entries k =
      download_single_chunk ethers private_key (entry_text (get_elem? entries k)) >>= λ b.
      decrypted (decrypt_data ciphers sym_key b)

  unfoldable pub join_encrypted : List ℕ → Bytes → List Json → Of Bytes
  unfolding download_encrypted_chunk
  join_encrypted schedule sym_key entries =
      and_then env NodeRouter
        (transfer_all env ethers private_key codec (download_encrypted_chunk sym_key entries)
          (length entries) schedule)
        λ chunks. joined env ethers private_key codec (join_chunks chunks)

  -- An encrypted manifest below the limit, else, or if its chunks fail, one encrypted file.
  unfoldable pub open_private : List ℕ → Bytes → Bytes → Of Bytes
  unfolding join_encrypted
  open_private schedule sym_key raw =
      let whole = or_throw (decrypt_data ciphers sym_key raw) in
      if ltb (length raw) manifest_limit
      then elim (parsed_chunks codec "feedo_encrypted_manifest" raw) [
        | none ↦ whole
        | some entries ↦
            attempt env NodeRouter (join_encrypted schedule sym_key entries) (λ _. whole)
      ]
      else whole

  -- What follows when the sealed key is known.
  unfoldable pub open_sealed : List ℕ → String → String → String → Of Bytes
  open_sealed schedule hash_id key sealed =
      and_then env NodeRouter (or_throw (decrypt_symmetric_key_ecies ciphers key sealed)) λ sym_key.
        and_then env NodeRouter (download_file env ethers private_key codec schedule hash_id)
          (open_private schedule sym_key)

  unfoldable pub read_access : List ℕ → String → String → String → Parsed → Of Bytes
  read_access schedule hash_id key my_did res =
      and_then env NodeRouter
        (or_throw (granted_key ("No access granted for " <> my_did <> " to file " <> hash_id) res))
        (open_sealed schedule hash_id key)

  unfoldable pub download_private_file : List ℕ → String → Of Bytes
  download_private_file schedule hash_id =
      with_wallet "Private key required to download private files" λ key my_did.
        and_then env NodeRouter (run env (get_file_access hash_id my_did))
          (read_access schedule hash_id key my_did)
