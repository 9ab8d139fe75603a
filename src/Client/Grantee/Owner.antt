-- ===== src/Client/Grantee/Owner.antt =====
-- The owner of a private file asks for it, after a grant that the node has not accepted.
use feedo.Base.{
  ℕ, ◌+◌, ◌*◌, ◌≤◌, ◌≡◌, subst, ◌∙◌, String, ◌<>◌, List, Option, none, some, true, false, truthy,
  length, All,
}
use feedo.Json.{Codec, Fields}
use feedo.Text.{without_0x}
use feedo.Runtime.Wire.{Bytes, Call, Parsed, message}
use feedo.Runtime.Async.{Env, Outcome, ok, err}
use feedo.Runtime.Pool.Rotation.{rotations}
use feedo.Runtime.Session.{and_then_of_ok, give}
use feedo.Router.State.{NodeRouter}
use feedo.Wallet.{Ethers, did_of}
use feedo.Crypto.{Ciphers, encrypt_symmetric_key_ecies}
use feedo.Storage.Contract.{Honest}
use feedo.Storage.Files.{worker_limit}
use feedo.Consensus.Ledger.{IsUp}
use feedo.Consensus.Denied.{IsVerifying, grant_file_access-refused}
use feedo.Client.{
  upload_encrypted, upload_private_file, grant_upload, share_upload, download_private_file,
}
use feedo.Client.Upload.{sealed_chunks, private_form, IsUsable-key, upload_encrypted-ok}
use feedo.Client.RoundTrip.{honest-IsUp}
use feedo.Client.Grantee.{upload_encrypted-kept}
use feedo.Client.Grantee.Unread.{download_private_file-denied}

module _ (env : Env) (ethers : Ethers) (ciphers : Ciphers) (codec : Codec)
    (IsAddress : String → Type 0) (ledger : env.World → String → String → Option String)
    (keeps : IsVerifying env IsAddress ledger) (k address : String) (set : truthy k ≡ true)
    (known : ethers.address k ≡ some address) (no_address : ¬ IsAddress (ethers.public_key k))
    (usage_key did : Option String) (sym_key e : Bytes)
    (encrypts : ciphers.ecies_encrypt (without_0x (ethers.public_key k)) sym_key ≡ some e) where
  grant_upload-refused :
      (up : IsUp env) (hash_id : String) (s : NodeRouter) (w : env.World)
      → ledger w hash_id (did_of address) ≡ none
      → (res : Parsed) × (s' : NodeRouter) × (w' : env.World) × (grant_upload env ethers ciphers
            codec
            (some k)
            usage_key
            did
            sym_key
            none
            k
            (did_of address)
            hash_id
            s
            w
          ≡ (ok res, s', w'))
        × (ledger w' hash_id (did_of address) ≡ none)
  unfolding grant_upload encrypt_symmetric_key_ecies
  grant_upload-refused up hash_id s w absent =
      let sealed = ciphers.to_hex e in
      let (res, s', w', granted, still) =
        grant_file_access-refused env up IsAddress ledger keeps hash_id (did_of address) sealed
          (ethers.public_key k) (ethers.sign k (hash_id <> did_of address <> sealed)) hash_id
          (did_of address) none s w no_address absent in
      (res, s', w', rw (encrypt_symmetric_key_ecies, encrypts) granted, still)

  share_upload-refused :
      (up : IsUp env) (text_decoder : Bytes → String) (content : Bytes) (metadata : Fields)
      (hash_id : String) (s : NodeRouter) (w : env.World)
      → ledger w hash_id (did_of address) ≡ none
      → (s' : NodeRouter) × (w' : env.World) × (share_upload env ethers ciphers codec
            (some k)
            usage_key
            did
            sym_key
            text_decoder
            content
            none
            false
            metadata
            k
            (did_of address)
            hash_id
            s
            w
          ≡ (ok hash_id, s', w'))
        × (ledger w' hash_id (did_of address) ≡ none)
  unfolding share_upload
  share_upload-refused up text_decoder content metadata hash_id s w absent =
      let (res, s', w', granted, still) = grant_upload-refused up hash_id s w absent in
      (
        s',
        w',
        and_then_of_ok env NodeRouter
            (grant_upload env ethers ciphers codec (some k) usage_key did sym_key none k
              (did_of address) hash_id)
            (λ _. give env NodeRouter hash_id) s w granted,
        still,
      )

  -- A private file that its owner uploads without indexing cannot be downloaded by the owner. If
  -- every request is answered well, a grant whose public key the node cannot read as an address
  -- changes nothing of the grants, nor does any grant of those of other DIDs, the signing public
  -- key of the owner is no such address, a DID without a grant is told null, requests without JSON
  -- change nothing of the grants, the private key is one that ethers accepts, the symmetric key can
  -- be encrypted for its public key, the chunks and the manifest are stored, the workers take turns
  -- in enough rounds, and the owner had no grant for the address, then `uploadPrivateFile` returns
  -- the address of the manifest, but `downloadPrivateFile` of that address by the owner throws that
  -- no access was granted, whatever the state of the owner's router then.
  pub private_upload_unread :
      (address_of : Bytes → String) (Stored : Bytes → Type 0)
      (honest : (c : Call) (w : env.World) → Honest address_of Stored ⊥ c (env.serve c w).0)
      (nonces : ℕ → Bytes) (text_decoder : Bytes → String) (metadata : Fields) (c rounds : ℕ)
      (schedule : List ℕ) (content : Bytes) (s later : NodeRouter) (w : env.World)
      → Stored (private_form address_of codec ciphers nonces sym_key c content)
      → All Stored (sealed_chunks address_of codec ciphers nonces sym_key c content)
      → length (sealed_chunks address_of codec ciphers nonces sym_key c content) * 30 + worker_limit
        ≤ rounds
      → ledger w
          (address_of (private_form address_of codec ciphers nonces sym_key c content))
          (did_of address)
        ≡ none
      → (s' : NodeRouter) × (w' : env.World) × (upload_private_file env ethers ciphers codec
            (some k)
            usage_key
            did
            c
            (rotations rounds worker_limit)
            sym_key
            nonces
            text_decoder
            content
            none
            false
            metadata
            s
            w
          ≡ (
            ok (address_of (private_form address_of codec ciphers nonces sym_key c content)),
            s',
            w',
          ))
        × ((download_private_file env ethers ciphers codec
              (some k)
              usage_key
              did
              schedule
              (address_of (private_form address_of codec ciphers nonces sym_key c content))
              later
              w').0
            ≡ err (
                message (
                  "No access granted for "
                  <> did_of address
                  <> " to file "
                  <> address_of (private_form address_of codec ciphers nonces sym_key c content))))
  unfolding upload_private_file
  private_upload_unread address_of Stored honest nonces text_decoder metadata c rounds schedule
        content s later w whole parts enough absent =
      let up = honest-IsUp env address_of Stored honest in
      let hash_id = address_of (private_form address_of codec ciphers nonces sym_key c content) in
      let chunks = sealed_chunks address_of codec ciphers nonces sym_key c content in
      let turns = rotations rounds worker_limit in
      let (s₁, w₁, uploaded) =
        upload_encrypted-ok env ethers ciphers codec (some k) usage_key did address_of Stored
          (IsUsable-key ethers k address set known) honest nonces sym_key c rounds content s w whole
          parts enough in
      let still : ledger w₁ hash_id (did_of address) ≡ none =
        subst
          (λ (r : Outcome String × NodeRouter × env.World).
            ledger r.2 hash_id (did_of address) ≡ none)
          uploaded
          (upload_encrypted-kept env ethers ciphers codec ledger keeps.strict (some k) usage_key did
            c turns content chunks hash_id (did_of address) none s w absent) in
      let (s', w', shared, unread) =
        share_upload-refused up text_decoder content metadata hash_id s₁ w₁ still in
      (
        s',
        w',
        rw (set, known)
            (and_then_of_ok env NodeRouter
                (upload_encrypted env ethers ciphers codec (some k) usage_key did c turns content
                  chunks)
                (share_upload env ethers ciphers codec (some k) usage_key did sym_key text_decoder
                  content none false metadata k (did_of address))
                s w uploaded
              ∙ shared),
        download_private_file-denied env ethers ciphers codec ledger keeps.strict up k address
            usage_key did schedule hash_id later w' set known unread,
      )
