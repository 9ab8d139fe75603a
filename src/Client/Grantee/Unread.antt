-- ===== src/Client/Grantee/Unread.antt =====
-- The grantee of a private file asks for it.
use feedo.Base.{
  ℕ, ◌+◌, ◌*◌, ◌≤◌, ◌≡◌, refl, subst, ap, ◌∙◌, String, ◌<>◌, List, Option, none, some, true, Bool,
  truthy, length, All,
}
use feedo.Json.{Codec, Fields}
use feedo.Runtime.Wire.{Bytes, Call, message}
use feedo.Runtime.Async.{Env, Outcome, ok, err, run}
use feedo.Runtime.Pool.Rotation.{rotations}
use feedo.Runtime.Session.{and_then_of_ok}
use feedo.Router.State.{NodeRouter}
use feedo.Wallet.{Ethers, did_of}
use feedo.Text.{without_0x}
use feedo.Crypto.{Ciphers}
use feedo.Storage.Contract.{Honest}
use feedo.Storage.Files.{worker_limit}
use feedo.Consensus.{get_file_access}
use feedo.Consensus.Ledger.{IsUp}
use feedo.Consensus.Denied.{IsStrict, get_file_access-untold}
use feedo.Client.{
  upload_encrypted, upload_private_file, share_upload, download_private_file, read_access,
}
use feedo.Client.Upload.{sealed_chunks, private_form, IsUsable-key, upload_encrypted-ok}
use feedo.Client.RoundTrip.{honest-IsUp}
use feedo.Client.Grantee.{upload_encrypted-kept, share_upload-apart, granted_key-null}

module _ (env : Env) (ethers : Ethers) (ciphers : Ciphers) (codec : Codec)
    (ledger : env.World → String → String → Option String) (keeps : IsStrict env ledger) where
  -- A DID that the ledger has nothing for is refused.
  pub download_private_file-denied :
      (up : IsUp env) (k reader : String) (usage_key did : Option String) (schedule : List ℕ)
      (hash_id : String) (s : NodeRouter) (w : env.World)
      → truthy k ≡ true
      → ethers.address k ≡ some reader
      → ledger w hash_id (did_of reader) ≡ none
      → (download_private_file env ethers ciphers codec
          (some k)
          usage_key
          did
          schedule
          hash_id
          s
          w).0
        ≡ err (message ("No access granted for " <> did_of reader <> " to file " <> hash_id))
  unfolding download_private_file read_access
  download_private_file-denied up k reader usage_key did schedule hash_id s w set known absent =
      let (fields, s', w', told, has) =
        get_file_access-untold env up ledger keeps hash_id (did_of reader) s w absent in
      let denied = "No access granted for " <> did_of reader <> " to file " <> hash_id in
      rw (set, known)
        (ap (λ (o : Outcome Bytes × NodeRouter × env.World). o.0)
            (and_then_of_ok env NodeRouter (run env (get_file_access hash_id (did_of reader)))
              (read_access env ethers ciphers codec (some k) usage_key did schedule hash_id k
                (did_of reader))
              s w told)
          ∙ rw (granted_key-null denied fields has) refl)

  -- A private file that is uploaded for a grantee cannot be downloaded by that grantee. If every
  -- request is answered well, a grant changes nothing of other DIDs, a DID without a grant is told
  -- null, requests without JSON change nothing of the grants, both keys are ones that ethers
  -- accepts, the symmetric key can be encrypted for the public key that is given, the chunks and
  -- the manifest are stored, the workers take turns in enough rounds, and the grantee had no grant
  -- for the address, then `uploadPrivateFile` returns the address of the manifest, but
  -- `downloadPrivateFile` of that address by the grantee throws that no access was granted,
  -- whatever the state of the grantee's router.
  pub private_grant_unread :
      (address_of : Bytes → String) (Stored : Bytes → Type 0)
      (honest : (c : Call) (w : env.World) → Honest address_of Stored ⊥ c (env.serve c w).0)
      (owner address grantee reader g : String) (usage_key did : Option String) (nonces : ℕ → Bytes)
      (sym_key e : Bytes) (text_decoder : Bytes → String) (index : Bool) (metadata : Fields)
      (c rounds : ℕ) (schedule : List ℕ) (content : Bytes) (s fresh : NodeRouter) (w : env.World)
      → truthy owner ≡ true
      → ethers.address owner ≡ some address
      → truthy grantee ≡ true
      → ethers.address grantee ≡ some reader
      → truthy g ≡ true
      → ciphers.ecies_encrypt (without_0x g) sym_key ≡ some e
      → Stored (private_form address_of codec ciphers nonces sym_key c content)
      → All Stored (sealed_chunks address_of codec ciphers nonces sym_key c content)
      → length (sealed_chunks address_of codec ciphers nonces sym_key c content) * 30 + worker_limit
        ≤ rounds
      → ledger w
          (address_of (private_form address_of codec ciphers nonces sym_key c content))
          (did_of reader)
        ≡ none
      → (s' : NodeRouter) × (w' : env.World) × (upload_private_file env ethers ciphers codec
            (some owner)
            usage_key
            did
            c
            (rotations rounds worker_limit)
            sym_key
            nonces
            text_decoder
            content
            (some g)
            index
            metadata
            s
            w
          ≡ (
            ok (address_of (private_form address_of codec ciphers nonces sym_key c content)),
            s',
            w',
          ))
        × ((download_private_file env ethers ciphers codec
              (some grantee)
              none
              none
              schedule
              (address_of (private_form address_of codec ciphers nonces sym_key c content))
              fresh
              w').0
            ≡ err (
                message (
                  "No access granted for "
                  <> did_of reader
                  <> " to file "
                  <> address_of (private_form address_of codec ciphers nonces sym_key c content))))
  unfolding upload_private_file
  private_grant_unread address_of Stored honest owner address grantee reader g usage_key did nonces
        sym_key e text_decoder index metadata c rounds schedule content s fresh w set known set'
        known' named encrypts whole parts enough absent =
      let up = honest-IsUp env address_of Stored honest in
      let hash_id = address_of (private_form address_of codec ciphers nonces sym_key c content) in
      let chunks = sealed_chunks address_of codec ciphers nonces sym_key c content in
      let turns = rotations rounds worker_limit in
      let (s₁, w₁, uploaded) =
        upload_encrypted-ok env ethers ciphers codec (some owner) usage_key did address_of Stored
          (IsUsable-key ethers owner address set known) honest nonces sym_key c rounds content s w
          whole parts enough in
      let still : ledger w₁ hash_id (did_of reader) ≡ none =
        subst
          (λ (r : Outcome String × NodeRouter × env.World).
            ledger r.2 hash_id (did_of reader) ≡ none)
          uploaded
          (upload_encrypted-kept env ethers ciphers codec ledger keeps (some owner) usage_key did c
            turns content chunks hash_id (did_of reader) none s w absent) in
      let (s', w', shared, unread) =
        share_upload-apart env ethers ciphers codec ledger keeps up owner address g set known named
          sym_key e encrypts usage_key did reader text_decoder content index metadata hash_id s₁ w₁
          still in
      (
        s',
        w',
        rw (set, known)
            (and_then_of_ok env NodeRouter
                (upload_encrypted env ethers ciphers codec (some owner) usage_key did c turns
                  content chunks)
                (share_upload env ethers ciphers codec (some owner) usage_key did sym_key
                  text_decoder content (some g) index metadata owner (did_of address))
                s w uploaded
              ∙ shared),
        download_private_file-denied up grantee reader none none schedule hash_id fresh w' set'
            known' unread,
      )
