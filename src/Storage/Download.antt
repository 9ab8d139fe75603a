-- ===== src/Storage/Download.antt =====
-- What `downloadFile` returns for plain content and for a manifest.
use feedo.Base.{
  ◌⊎◌, ℕ, ◌≤◌, ◌<◌, ◌≡◌, refl, String, List, map, Option, none, some, inl, inr, length, ltb, ltb→lt,
  lt→ltb, arith, All, Bool-cases, ap, ◌∙◌,
}
use feedo.Json.{Json, Codec}
use feedo.Runtime.Wire.{Bytes, Call, Error}
use feedo.Runtime.Async.{Env, Outcome, ok, err, pending, run}
use feedo.Runtime.Bounds.{Contract, Within, Ends, run-Ends}
use feedo.Runtime.Pool.Ordered.{IsComplete}
use feedo.Runtime.Pool.Total.{Fair, pool-Ends}
use feedo.Runtime.Session.{and_then-Ends, attempt-Ends, give}
use feedo.Router.State.{NodeRouter}
use feedo.Wallet.{Ethers}
use feedo.Storage.Contract.{Honest}
use feedo.Storage.Transfer.{IsUsable, download_single_chunk-Within}
use feedo.Storage.Requests.{download_single_chunk}
use feedo.Storage.Chunks.{concat}
use feedo.Storage.Files.{
  worker_limit, manifest_limit, chunk_at, hash_json, join_chunks, transfer_all, joined,
  download_chunk, expand, parsed_chunks, interpret, download_file,
}
use feedo.Storage.Manifest.{
  IsComplete-filled, All-chunk_at, length-entries, entry_text-filled, join_chunks-filled, filled_by,
}

-- The entries of a manifest over the addresses of some chunks.
abbrev pub entries_of : (Bytes → String) → List Bytes → List Json
entries_of address_of chunks = map hash_json (filled_by address_of chunks)

-- Content that `downloadFile` does not take for a manifest.
abbrev pub IsPlain : Codec → Bytes → Type 0
IsPlain codec raw =
    (manifest_limit ≤ length raw) ⊎ (parsed_chunks codec "feedo_manifest" raw ≡ none)

-- Content that it takes for the manifest of some chunks.
abbrev pub IsManifest : Codec → (Bytes → String) → List Bytes → Bytes → Type 0
IsManifest codec address_of chunks raw =
    (length raw < manifest_limit)
    × (parsed_chunks codec "feedo_manifest" raw ≡ some (entries_of address_of chunks))

module _ (env : Env) (ethers : Ethers) (key : Option String) (codec : Codec)
    (address_of : Bytes → String) (Stored : Bytes → Type 0) (Lossy : Type 0)
    (usable : IsUsable ethers key)
    (honest : (c : Call) (w : env.World) → Honest address_of Stored Lossy c (env.serve c w).0) where
  abbrev H : Contract
  H = Honest address_of Stored Lossy

  abbrev Q : Error → Type 0
  Q e = Lossy

  single-Ends :
      (R : Type 0) (content : Bytes) (s : NodeRouter) (w : env.World)
      → Stored content
      → Ends
          (λ b. b ≡ content)
          Q
          R
          (run env (download_single_chunk ethers key (address_of content)) s w).0
  single-Ends R content s w stored =
      run-Ends H env honest (λ b. b ≡ content) Q R 27
        (download_single_chunk ethers key (address_of content)) s w
        (download_single_chunk-Within address_of Stored Lossy ethers key usable content stored)

  download_chunk-Within :
      (chunks : List Bytes) (k : ℕ)
      → All Stored chunks
      → k < length chunks
      → Within H
          (λ b. b ≡ chunk_at chunks k)
          Q
          27
          (download_chunk env ethers key codec (entries_of address_of chunks) k)
  unfolding download_chunk
  download_chunk-Within chunks k parts lt = rw (entry_text-filled address_of chunks k lt) (
      download_single_chunk-Within address_of Stored Lossy ethers key usable (chunk_at chunks k)
        (All-chunk_at Stored chunks k parts lt))

  -- The manifest's chunks come back joined in their order.
  expand-Ends :
      (R : Type 0) (schedule : List ℕ) (raw : Bytes) (chunks : List Bytes) (s : NodeRouter)
      (w : env.World)
      → All Stored chunks
      → Fair R (length chunks) 27 worker_limit schedule
      → Ends
          (λ b. b ≡ concat chunks)
          Q
          R
          (expand env ethers key codec schedule raw (some (entries_of address_of chunks)) s w).0
  unfolding expand joined
  expand-Ends R schedule raw chunks s w parts fair =
      let jobs = download_chunk env ethers key codec (entries_of address_of chunks) in
      let P = λ (k : ℕ) (b : Bytes). b ≡ chunk_at chunks k in
      rw (length-entries address_of chunks) (
        and_then-Ends env NodeRouter (IsComplete P Q (length chunks)) R (λ b. b ≡ concat chunks) Q
          (transfer_all env ethers key codec jobs (length chunks) schedule)
          (λ bs. joined env ethers key codec (join_chunks bs)) s w
          (pool-Ends H P Q (length chunks) worker_limit env honest jobs 27
            (λ k lt. download_chunk-Within chunks k parts lt) R schedule s w (omega arith) fair)
          (λ bs s' w' full.
            let is = IsComplete-filled (λ b. b) Q chunks bs full in
            let whole = ap join_chunks is ∙ join_chunks-filled chunks in rw whole refl))

  interpret_plain :
      (R : Type 0) (schedule : List ℕ) (raw : Bytes) (s : NodeRouter) (w : env.World)
      → IsPlain codec raw
      → Ends (λ b. b ≡ raw) Q R (interpret env ethers key codec schedule raw s w).0
  unfolding interpret expand
  interpret_plain R schedule raw s w plain = elim (Bool-cases (ltb (length raw) manifest_limit)) [
    | inr long ↦ rw long refl
    | inl short ↦ elim plain [
      | inl long ↦ absurd (omega (arith, ltb→lt (length raw) manifest_limit short))
      | inr other ↦ rw (short, other) refl
    ]
  ]

  -- The chunks joined, or, where a node may fail, the manifest itself.
  abbrev pub Opened : List Bytes → Bytes → Bytes → Type 0
  Opened chunks raw b = (b ≡ concat chunks) ⊎ (Lossy × (b ≡ raw))

  interpret_manifest :
      (R : Type 0) (schedule : List ℕ) (raw : Bytes) (chunks : List Bytes) (s : NodeRouter)
      (w : env.World)
      → All Stored chunks
      → Fair R (length chunks) 27 worker_limit schedule
      → IsManifest codec address_of chunks raw
      → Ends (Opened chunks raw) Q R (interpret env ethers key codec schedule raw s w).0
  unfolding interpret
  interpret_manifest R schedule raw chunks s w parts fair (short, is) =
      rw (lt→ltb (length raw) manifest_limit short, is)
        (attempt-Ends env NodeRouter (Opened chunks raw) R Q Q
          (expand env ethers key codec schedule raw (some (entries_of address_of chunks)))
          (λ _. give env NodeRouter raw) s w
          (weaken
            (expand env ethers key codec schedule raw (some (entries_of address_of chunks)) s w).0
            (expand-Ends R schedule raw chunks s w parts fair))
          (λ e s' w' lossy. inr (lossy, refl)))
    where
      weaken :
          (o : Outcome Bytes) → Ends (λ b. b ≡ concat chunks) Q R o → Ends (Opened chunks raw) Q R o
      weaken (ok b) h = inl h
      weaken (err e) h = h
      weaken pending h = h

  -- A download that is no manifest is what was stored.
  pub download_plain-Ends :
      (R : Type 0) (schedule : List ℕ) (content : Bytes) (s : NodeRouter) (w : env.World)
      → Stored content
      → IsPlain codec content
      → Ends
          (λ b. b ≡ content)
          Q
          R
          (download_file env ethers key codec schedule (address_of content) s w).0
  unfolding download_file
  download_plain-Ends R schedule content s w stored plain =
      and_then-Ends env NodeRouter (λ b. b ≡ content) R (λ b. b ≡ content) Q
        (run env (download_single_chunk ethers key (address_of content)))
        (interpret env ethers key codec schedule) s w (single-Ends R content s w stored)
        (λ raw s' w' is. rw is (interpret_plain R schedule content s' w' plain))

  pub download_manifest-Ends :
      (R : Type 0) (schedule : List ℕ) (raw : Bytes) (chunks : List Bytes) (s : NodeRouter)
      (w : env.World)
      → Stored raw
      → All Stored chunks
      → Fair R (length chunks) 27 worker_limit schedule
      → IsManifest codec address_of chunks raw
      → Ends
          (Opened chunks raw)
          Q
          R
          (download_file env ethers key codec schedule (address_of raw) s w).0
  unfolding download_file
  download_manifest-Ends R schedule raw chunks s w stored parts fair m =
      and_then-Ends env NodeRouter (λ b. b ≡ raw) R (Opened chunks raw) Q
        (run env (download_single_chunk ethers key (address_of raw)))
        (interpret env ethers key codec schedule) s w (single-Ends R raw s w stored)
        (λ b s' w' is. rw is (interpret_manifest R schedule raw chunks s' w' parts fair m))
