-- ===== src/Client/RoundTrip.antt =====
-- What `downloadPrivateFile` gives for what an upload has stored, through the grant of its key.
use feedo.Base.{
  inl, inr, ℕ, ◌+◌, ◌*◌, ◌≤◌, ◌<◌, ◌≡◌, refl, ap, ◌∙◌, String, ◌<>◌, List, map, Option, some, true,
  truthy, length, All,
}
use feedo.Json.{Json, str, obj, Codec, Fields, get_field}
use feedo.Runtime.Wire.{
  Bytes, Call, http, other, Response, Reply, answered, refused, settled, ok_status,
}
use feedo.Runtime.Async.{Env, Outcome, ok, run}
use feedo.Runtime.Pool.Rotation.{rotations}
use feedo.Runtime.Session.{and_then_of_ok}
use feedo.Router.State.{NodeRouter}
use feedo.Wallet.{Ethers, did_of}
use feedo.Crypto.{Ciphers}
use feedo.Storage.Contract.{Honest}
use feedo.Storage.Chunks.{chunks_of}
use feedo.Storage.Files.{worker_limit, manifest_limit, parsed_chunks, download_file}
use feedo.Storage.Download.{download_plain-Ends}
use feedo.Storage.Manifest.{manifest_chunks-private}
use feedo.Consensus.{get_file_access}
use feedo.Consensus.Ledger.{IsLedger, IsUp, get_file_access-told}
use feedo.Client.{granted_key, download_private_file, read_access, open_sealed, open_private}
use feedo.Client.Chunks.{IsCipher, open_private-content}
use feedo.Client.Upload.{
  sealed_chunks, private_manifest, private_form, returned, IsSealed, IsUsable-key,
}

granted_key-sealed :
    (denied sealed : String) (fields : Fields)
    → get_field "encrypted_symmetric_key" fields ≡ some (str sealed)
    → truthy sealed ≡ true
    → granted_key denied (other (obj fields)) ≡ inr sealed
unfolding granted_key
granted_key-sealed denied sealed fields has set = rw (granted_key, has, set) refl

-- What the manifest of a private file must be like: below the limit, and JSON gives it again.
pub record IsOpenable (codec : Codec) (m : Json) : Type 0 where
  pub short : length (codec.stringify m) < manifest_limit
  pub parses : codec.parse (codec.stringify m) ≡ some m

-- Where every request is answered well, every request gets an answer that is ok.
pub honest-IsUp :
    (env : Env) (address_of : Bytes → String) (Stored : Bytes → Type 0)
    → ((c : Call) (w : env.World) → Honest address_of Stored ⊥ c (env.serve c w).0)
    → IsUp env
honest-IsUp env address_of Stored honest req w =
    answer (env.serve (http req) w).0 (honest (http req) w)
  where
    answer :
        (reply : Reply)
        → Honest address_of Stored ⊥ (http req) reply
        → (r : Response) × (reply ≡ answered r) × (ok_status r.status ≡ true)
    answer (answered r) (inl (_, lost)) = absurd lost
    answer (answered r) (inr (good, _)) = (r, refl, good)
    answer (refused e) lost = absurd lost
    answer (settled ends) lost = absurd lost

module _ (env : Env) (ethers : Ethers) (ciphers : Ciphers) (codec : Codec)
    (usage_key did : Option String) (k address : String) (set : truthy k ≡ true)
    (known : ethers.address k ≡ some address) (address_of : Bytes → String)
    (Stored : Bytes → Type 0)
    (honest : (c : Call) (w : env.World) → Honest address_of Stored ⊥ c (env.serve c w).0)
    (nonces : ℕ → Bytes) (sym_key : Bytes) (twelve : (n : ℕ) → length (nonces n) ≡ 12)
    (good : IsCipher ciphers) where
  abbrev form : ℕ → Bytes → Bytes
  form = private_form address_of codec ciphers nonces sym_key

  abbrev chunks : ℕ → Bytes → List Bytes
  chunks = sealed_chunks address_of codec ciphers nonces sym_key

  -- The address of the manifest, and a sealed key that can be opened, give the file.
  open_sealed-content :
      (c rounds : ℕ) (content : Bytes) (sealed : String) (s : NodeRouter) (w : env.World)
      → 0 < c
      → Stored (form c content)
      → All Stored (chunks c content)
      → IsOpenable codec (private_manifest address_of codec ciphers nonces sym_key c content)
      → length (chunks_of c content) * 30 + worker_limit ≤ rounds
      → IsSealed ciphers k sym_key sealed
      → (open_sealed env ethers ciphers codec
          (some k)
          usage_key
          did
          (rotations rounds worker_limit)
          (address_of (form c content))
          k
          sealed
          s
          w).0
        ≡ ok content
  unfolding open_sealed
  open_sealed-content c rounds content sealed s w pos whole parts openable enough (_, opens) =
      let schedule = rotations rounds worker_limit in
      let (entries, plain) =
        manifest_chunks-private "encrypted_file.bin" (length content) c
          (map (λ b. some (address_of b)) (chunks c content)) in
      let r = download_file env ethers (some k) codec schedule (address_of (form c content)) s w in
      let (raw, downloaded, is) =
        returned (λ b. b ≡ form c content) r
          (download_plain-Ends env ethers (some k) codec address_of Stored ⊥
            (IsUsable-key ethers k address set known) honest ⊥ schedule (form c content) s w whole
            (inr (rw (parsed_chunks, openable.parses) plain))) in
      rw opens (
        ap (λ (o : Outcome Bytes × NodeRouter × env.World). o.0)
          (and_then_of_ok env NodeRouter
            (download_file env ethers (some k) codec schedule (address_of (form c content)))
            (open_private env ethers ciphers codec (some k) usage_key did schedule sym_key) s w
            downloaded)
        ∙ open_private-content env ethers ciphers codec (some k) usage_key did address_of Stored
            (IsUsable-key ethers k address set known) honest nonces sym_key twelve good c rounds
            content raw r.1 r.2 pos parts (rw is openable.short)
            (rw (is, parsed_chunks, openable.parses) entries) enough)

  -- A private file whose encrypted chunks and manifest are stored comes back to a reader who has
  -- been granted its key. If every request is answered well, the consensus nodes tell a granted key
  -- and requests without JSON change nothing of the grants, the ledger has a sealed key for the DID
  -- of the reader, the reader's private key is one that ethers accepts and opens the sealed key to
  -- the symmetric key, the cipher opens what it seals with tags of 16 bytes, the nonces have 12
  -- bytes, the chunk size is positive, the manifest is below the limit and parses as itself, and
  -- the workers take turns in enough rounds, then `downloadPrivateFile` of the address of the
  -- manifest returns the file, from whatever state of the router.
  pub download_private_file-content :
      (ledger : env.World → String → String → Option String) (keeps : IsLedger env ledger)
      (c rounds : ℕ) (content : Bytes) (sealed : String) (s : NodeRouter) (w : env.World)
      → 0 < c
      → Stored (form c content)
      → All Stored (chunks c content)
      → IsOpenable codec (private_manifest address_of codec ciphers nonces sym_key c content)
      → length (chunks_of c content) * 30 + worker_limit ≤ rounds
      → ledger w (address_of (form c content)) (did_of address) ≡ some sealed
      → IsSealed ciphers k sym_key sealed
      → (download_private_file env ethers ciphers codec
          (some k)
          usage_key
          did
          (rotations rounds worker_limit)
          (address_of (form c content))
          s
          w).0
        ≡ ok content
  unfolding download_private_file read_access
  download_private_file-content ledger keeps c rounds content sealed s w pos whole parts openable
        enough entered usable =
      let schedule = rotations rounds worker_limit in
      let hash_id = address_of (form c content) in
      let (fields, s', w', told, has) =
        get_file_access-told env (honest-IsUp env address_of Stored honest) ledger keeps hash_id
          (did_of address) sealed s w entered in
      let denied = "No access granted for " <> did_of address <> " to file " <> hash_id in
      rw (set, known)
        (ap (λ (o : Outcome Bytes × NodeRouter × env.World). o.0)
            (and_then_of_ok env NodeRouter (run env (get_file_access hash_id (did_of address)))
              (read_access env ethers ciphers codec (some k) usage_key did schedule hash_id k
                (did_of address))
              s w told)
          ∙ rw (granted_key-sealed denied sealed fields has usable.0) (
              open_sealed-content c rounds content sealed s' w' pos whole parts openable enough
                usable))
