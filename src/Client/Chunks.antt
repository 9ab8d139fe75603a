-- ===== src/Client/Chunks.antt =====
-- The encrypted chunks of `uploadPrivateFile`, as `downloadPrivateFile` opens them.
use feedo.Base.{
  inr, ℕ, zero, suc, ◌+◌, ◌*◌, ◌≤◌, ◌<◌, ◌≡◌, refl, ap, ◌∙◌, String, List, [], ◌∷◌, Option, some,
  length, lt→ltb, arith, All,
}
use feedo.Json.{Codec}
use feedo.Runtime.Wire.{Bytes, Call, Error}
use feedo.Runtime.Async.{Env, Outcome, ok, err, pending}
use feedo.Runtime.Bounds.{Contract, Within, Within-bind, Ends}
use feedo.Runtime.Pool.Ordered.{IsComplete}
use feedo.Runtime.Pool.Rotation.{rotations}
use feedo.Runtime.Pool.Total.{pool-Ends}
use feedo.Runtime.Session.{and_then-Ends, attempt-Ends}
use feedo.Router.State.{NodeRouter}
use feedo.Wallet.{Ethers}
use feedo.Crypto.{Ciphers, encrypt_data, decrypt_data}
use feedo.Crypto.Framing.{decrypt_data-encrypt_data}
use feedo.Storage.Contract.{Honest}
use feedo.Storage.Requests.{download_single_chunk}
use feedo.Storage.Transfer.{IsUsable, download_single_chunk-Within}
use feedo.Storage.Chunks.{chunks_of, concat, concat-chunks_of}
use feedo.Storage.Files.{
  worker_limit, manifest_limit, chunk_at, parsed_chunks, join_chunks, joined, transfer_all,
}
use feedo.Storage.Manifest.{
  IsComplete-filled, All-chunk_at, length-entries, entry_text-filled, join_chunks-filled,
}
use feedo.Storage.Download.{entries_of}
use feedo.Client.{or_throw, encrypt_chunks, download_encrypted_chunk, join_encrypted, open_private}

-- What AES-GCM promises: tags of 16 bytes, and that what is sealed can be opened.
pub record IsCipher (ciphers : Ciphers) : Type 0 where
  pub tag_size : (key nonce b : Bytes) → length (ciphers.seal key nonce b).1 ≡ 16
  pub opens :
      (key nonce b : Bytes)
      → ciphers.unseal key nonce (ciphers.seal key nonce b).0 (ciphers.seal key nonce b).1 ≡ some b

module _ (ciphers : Ciphers) (nonces : ℕ → Bytes) (sym_key : Bytes) where
  pub length-encrypt_chunks :
      (i : ℕ) (chunks : List Bytes)
      → length (encrypt_chunks ciphers nonces sym_key i chunks) ≡ length chunks
  unfolding encrypt_chunks
  length-encrypt_chunks i [] = refl
  length-encrypt_chunks i (b ∷ bs) = ap suc (length-encrypt_chunks (suc i) bs)

  chunk_at-encrypt_chunks :
      (i : ℕ) (chunks : List Bytes) (k : ℕ)
      → k < length chunks
      → chunk_at (encrypt_chunks ciphers nonces sym_key i chunks) k
        ≡ encrypt_data ciphers (nonces (i + k)) sym_key (chunk_at chunks k)
  unfolding encrypt_chunks
  chunk_at-encrypt_chunks i [] k lt = absurd (omega arith)
  chunk_at-encrypt_chunks i (b ∷ bs) zero lt = let e : i + 0 ≡ i = omega arith in rw e refl
  chunk_at-encrypt_chunks i (b ∷ bs) (suc k) lt =
      let e : suc i + k ≡ i + suc k = omega arith in
      chunk_at-encrypt_chunks (suc i) bs k (omega arith)
      ∙ ap (λ j. encrypt_data ciphers (nonces j) sym_key (chunk_at bs k)) e

module _ (env : Env) (ethers : Ethers) (ciphers : Ciphers) (codec : Codec)
    (key usage_key did : Option String) (address_of : Bytes → String) (Stored : Bytes → Type 0)
    (usable : IsUsable ethers key)
    (honest : (c : Call) (w : env.World) → Honest address_of Stored ⊥ c (env.serve c w).0)
    (nonces : ℕ → Bytes) (sym_key : Bytes) (twelve : (k : ℕ) → length (nonces k) ≡ 12)
    (good : IsCipher ciphers) where
  abbrev H : Contract
  H = Honest address_of Stored ⊥

  abbrev Never : Error → Type 0
  Never e = ⊥

  abbrev sealed : List Bytes → List Bytes
  sealed chunks = encrypt_chunks ciphers nonces sym_key 0 chunks

  download_encrypted_chunk-Within :
      (chunks : List Bytes) (k : ℕ)
      → All Stored (sealed chunks)
      → k < length chunks
      → Within H
          (λ b. b ≡ chunk_at chunks k)
          Never
          27
          (download_encrypted_chunk env ethers ciphers codec key usage_key did sym_key
            (entries_of address_of (sealed chunks))
            k)
  unfolding download_encrypted_chunk
  download_encrypted_chunk-Within chunks k parts lt =
      let lt' : k < length (sealed chunks) =
        omega (arith, length-encrypt_chunks ciphers nonces sym_key 0 chunks) in
      let here = chunk_at-encrypt_chunks ciphers nonces sym_key 0 chunks k lt in
      let nonce = nonces (0 + k) in
      let opened =
        decrypt_data-encrypt_data ciphers nonce sym_key (chunk_at chunks k) (twelve (0 + k))
          (good.tag_size sym_key nonce (chunk_at chunks k))
          (good.opens sym_key nonce (chunk_at chunks k)) in
      rw (entry_text-filled address_of (sealed chunks) k lt') (
        Within-bind H (λ b. b ≡ chunk_at (sealed chunks) k) (λ b. b ≡ chunk_at chunks k) Never 27 0
          (download_single_chunk ethers key (address_of (chunk_at (sealed chunks) k))) _
          (download_single_chunk-Within address_of Stored ⊥ ethers key usable
            (chunk_at (sealed chunks) k) (All-chunk_at Stored (sealed chunks) k parts lt'))
          (λ b is. rw (is, here, opened) refl))

  join_encrypted-Ends :
      (rounds : ℕ) (chunks : List Bytes) (s : NodeRouter) (w : env.World)
      → All Stored (sealed chunks)
      → length chunks * 30 + worker_limit ≤ rounds
      → Ends
          (λ b. b ≡ concat chunks)
          Never
          ⊥
          (join_encrypted env ethers ciphers codec key usage_key did
            (rotations rounds worker_limit)
            sym_key
            (entries_of address_of (sealed chunks))
            s
            w).0
  unfolding join_encrypted joined
  join_encrypted-Ends rounds chunks s w parts enough =
      let jobs =
        download_encrypted_chunk env ethers ciphers codec key usage_key did sym_key
          (entries_of address_of (sealed chunks)) in
      let P = λ (k : ℕ) (b : Bytes). b ≡ chunk_at chunks k in
      let size =
        length-entries address_of (sealed chunks)
        ∙ length-encrypt_chunks ciphers nonces sym_key 0 chunks in
      rw size (
        and_then-Ends env NodeRouter (IsComplete P Never (length chunks)) ⊥ (λ b. b ≡ concat chunks)
          Never
          (transfer_all env ethers key codec jobs (length chunks) (rotations rounds worker_limit))
          (λ bs. joined env ethers key codec (join_chunks bs)) s w
          (pool-Ends H P Never (length chunks) worker_limit env honest jobs 27
            (λ k lt. download_encrypted_chunk-Within chunks k parts lt) ⊥
            (rotations rounds worker_limit) s w (omega arith) (inr (rounds, refl, enough)))
          (λ bs s' w' full.
            let is = IsComplete-filled (λ b. b) Never chunks bs full in
            let whole = ap join_chunks is ∙ join_chunks-filled chunks in rw whole refl))

  -- If every request is answered well, the key is usable, the nonces have 12 bytes, the cipher
  -- opens what it seals with tags of 16 bytes, the chunk size is positive and the workers take
  -- turns in enough rounds, then `downloadPrivateFile` opens raw data below the limit that parses
  -- as the encrypted manifest over the addresses of the encrypted chunks of a file, where those
  -- chunks are stored, to that file.
  pub open_private-content :
      (c rounds : ℕ) (content raw : Bytes) (s : NodeRouter) (w : env.World)
      → 0 < c
      → All Stored (encrypt_chunks ciphers nonces sym_key 0 (chunks_of c content))
      → length raw < manifest_limit
      → parsed_chunks codec "feedo_encrypted_manifest" raw
        ≡ some
            (entries_of address_of (encrypt_chunks ciphers nonces sym_key 0 (chunks_of c content)))
      → length (chunks_of c content) * 30 + worker_limit ≤ rounds
      → (open_private env ethers ciphers codec key usage_key did
          (rotations rounds worker_limit)
          sym_key
          raw
          s
          w).0
        ≡ ok content
  unfolding open_private
  open_private-content c rounds content raw s w pos parts short is enough =
      let join =
        join_encrypted env ethers ciphers codec key usage_key did (rotations rounds worker_limit)
          sym_key (entries_of address_of (sealed (chunks_of c content))) in
      rw (lt→ltb (length raw) manifest_limit short, is)
        (settled _ (
          attempt-Ends env NodeRouter (λ b. b ≡ concat (chunks_of c content)) ⊥ Never Never join
            (λ _.
              or_throw env ethers ciphers codec key usage_key did
                (decrypt_data ciphers sym_key raw))
            s w (join_encrypted-Ends rounds (chunks_of c content) s w parts enough)
            (λ e s' w' never. absurd never)))
    where
      settled :
          (o : Outcome Bytes)
          → Ends (λ b. b ≡ concat (chunks_of c content)) Never ⊥ o
          → o ≡ ok content
      settled (ok b) h = ap ok (h ∙ concat-chunks_of c content pos)
      settled (err e) h = absurd h
      settled pending h = absurd h
