-- ===== src/Storage/Upload.antt =====
-- What `uploadFile` returns.
use feedo.Base.{
  ℕ, ◌<◌, ◌≡◌, String, ◌<>◌, List, map, Option, some, inl, inr, length, leb, if◌then◌else◌, arith,
  All, Bool-cases,
}
use feedo.Text.{to_string}
use feedo.Json.{Json, Codec}
use feedo.Runtime.Wire.{Bytes, Call, Error}
use feedo.Runtime.Async.{Env, run}
use feedo.Runtime.Bounds.{Contract, Within, Ends, run-Ends}
use feedo.Runtime.Pool.Ordered.{IsComplete}
use feedo.Runtime.Pool.Total.{Fair, pool-Ends}
use feedo.Runtime.Session.{and_then, and_then-Ends}
use feedo.Router.State.{NodeRouter}
use feedo.Wallet.{Ethers}
use feedo.Storage.Contract.{Honest}
use feedo.Storage.Transfer.{IsUsable, upload_single_chunk-Within}
use feedo.Storage.Requests.{upload_single_chunk}
use feedo.Storage.Chunks.{chunks_of}
use feedo.Storage.Files.{
  worker_limit, chunk_at, manifest, transfer_all, upload_chunk, upload_manifest, upload_file,
}
use feedo.Storage.Manifest.{IsComplete-filled, All-chunk_at}

module _ (address_of : Bytes → String) (codec : Codec) where
  -- The manifest of a file of several chunks: the addresses of the chunks, in order.
  abbrev pub manifest_of : ℕ → Bytes → String → Json
  manifest_of c content filename =
      manifest "feedo_manifest" filename (length content) c
        (map (λ b. some (address_of b)) (chunks_of c content))

  -- What a file is stored as, under the address that `uploadFile` returns.
  abbrev pub stored_form : ℕ → Bytes → String → Bytes
  stored_form c content filename =
      if leb (length content) c then content else codec.stringify (manifest_of c content filename)

module _ (env : Env) (ethers : Ethers) (key : Option String) (codec : Codec)
    (address_of : Bytes → String) (Stored : Bytes → Type 0) (Lossy : Type 0)
    (usable : IsUsable ethers key)
    (honest : (c : Call) (w : env.World) → Honest address_of Stored Lossy c (env.serve c w).0) where
  abbrev H : Contract
  H = Honest address_of Stored Lossy

  abbrev Q : Error → Type 0
  Q e = Lossy

  pub upload_chunk-Within :
      (prefix : String) (chunks : List Bytes) (k : ℕ)
      → All Stored chunks
      → k < length chunks
      → Within H
          (λ h. h ≡ address_of (chunk_at chunks k))
          Q
          27
          (upload_chunk env ethers key codec prefix chunks k)
  upload_chunk-Within prefix chunks k parts lt =
      upload_single_chunk-Within address_of Stored Lossy ethers key usable (chunk_at chunks k)
        (prefix <> to_string k) (All-chunk_at Stored chunks k parts lt)

  pub single-Ends :
      (R : Type 0) (content : Bytes) (filename : String) (s : NodeRouter) (w : env.World)
      → Stored content
      → Ends
          (λ h. h ≡ address_of content)
          Q
          R
          (run env (upload_single_chunk ethers key content filename) s w).0
  single-Ends R content filename s w stored =
      run-Ends H env honest (λ h. h ≡ address_of content) Q R 27
        (upload_single_chunk ethers key content filename) s w
        (upload_single_chunk-Within address_of Stored Lossy ethers key usable content filename
          stored)

  -- Chunks, and then the manifest that is made of their addresses in order.
  pub upload_parts-Ends :
      (R : Type 0) (schedule : List ℕ) (prefix : String) (chunks : List Bytes)
      (m : List (Option String) → Json) (s : NodeRouter) (w : env.World)
      → Stored (codec.stringify (m (map (λ b. some (address_of b)) chunks)))
      → All Stored chunks
      → Fair R (length chunks) 27 worker_limit schedule
      → Ends
          (λ h. h ≡ address_of (codec.stringify (m (map (λ b. some (address_of b)) chunks))))
          Q
          R
          (and_then env NodeRouter
            (transfer_all env ethers key codec
              (upload_chunk env ethers key codec prefix chunks)
              (length chunks)
              schedule)
            (λ hashes. upload_manifest env ethers key codec (m hashes))
            s
            w).0
  upload_parts-Ends R schedule prefix chunks m s w whole parts fair =
      let jobs = upload_chunk env ethers key codec prefix chunks in
      let P = λ (k : ℕ) (h : String). h ≡ address_of (chunk_at chunks k) in
      and_then-Ends env NodeRouter (IsComplete P Q (length chunks)) R
        (λ h. h ≡ address_of (codec.stringify (m (map (λ b. some (address_of b)) chunks)))) Q
        (transfer_all env ethers key codec jobs (length chunks) schedule)
        (λ hashes. upload_manifest env ethers key codec (m hashes)) s w
        (pool-Ends H P Q (length chunks) worker_limit env honest jobs 27
          (λ k lt. upload_chunk-Within prefix chunks k parts lt) R schedule s w (omega arith) fair)
        (λ hashes s' w' full.
          let is = IsComplete-filled address_of Q chunks hashes full in
          rw is (
            single-Ends R (codec.stringify (m (map (λ b. some (address_of b)) chunks)))
              "manifest.json" s' w' whole))

  pub upload_file-Ends :
      (R : Type 0) (c : ℕ) (schedule : List ℕ) (content : Bytes) (filename : String)
      (s : NodeRouter) (w : env.World)
      → Stored (stored_form address_of codec c content filename)
      → All Stored (chunks_of c content)
      → Fair R (length (chunks_of c content)) 27 worker_limit schedule
      → Ends
          (λ h. h ≡ address_of (stored_form address_of codec c content filename))
          Q
          R
          (upload_file env ethers key codec c schedule content filename s w).0
  unfolding upload_file
  upload_file-Ends R c schedule content filename s w whole parts fair =
      elim (Bool-cases (leb (length content) c)) [
        | inl small ↦ rw small (single-Ends R content filename s w (rw small at whole))
        | inr large ↦ rw large (
            upload_parts-Ends R schedule (filename <> ".part") (chunks_of c content)
              (manifest "feedo_manifest" filename (length content) c) s w (rw large at whole) parts
              fair)
      ]
