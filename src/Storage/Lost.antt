-- ===== src/Storage/Lost.antt =====
-- What `downloadFile` gives for a file of which the nodes have lost a chunk.
use feedo.Base.{
  ℕ, ◌+◌, ◌*◌, ◌≤◌, ◌<◌, ◌≡◌, ◌≢◌, refl, ap, ◌∙◌, String, ◌<>◌, List, Option, some, false, inl, inr,
  length, get_elem?, lt→ltb, arith, Bool-cases,
}
use feedo.Json.{Json, Codec}
use feedo.Runtime.Wire.{
  Bytes, Call, Response, http, race, Reply, answered, refused, settled, Error, ok_status,
}
use feedo.Runtime.Async.{done, ◌>>=◌, Env, Outcome, ok, err, pending, run}
use feedo.Runtime.Bounds.{Contract, Within, Within-bind, Ends}
use feedo.Runtime.Pool.Ordered.{IsComplete}
use feedo.Runtime.Pool.Rotation.{rotations}
use feedo.Runtime.Pool.Total.{run_pool-Ends}
use feedo.Runtime.Session.{and_then_of_ok, and_then_of_err, attempt_of_err, give}
use feedo.Router.State.{NodeRouter, storage}
use feedo.Router.Discover.{axios, axios_reply}
use feedo.Router.Select.{get_node}
use feedo.Router.Bounded.{get_node-Within}
use feedo.Wallet.{Ethers, Headers, signed_headers}
use feedo.Storage.Requests.{download_path, download_request, send_twice, download_single_chunk}
use feedo.Storage.Transfer.{IsUsable, send_twice-Within, signed_headers-Within}
use feedo.Storage.Files.{
  worker_limit, manifest_limit, parsed_chunks, transfer_all, joined, join_chunks, download_chunk,
  expand, interpret, download_file, entry_text,
}

-- No request for a hash gets an answer that is ok.
abbrev pub Lost : String → Contract
Lost hash (http req) (answered r) =
    (base : String) → req.url ≡ base <> download_path hash → ok_status r.status ≡ false
Lost hash (http req) (refused e) = Unit
Lost hash (http req) (settled ends) = Unit
Lost hash (race urls) reply = Unit

module _ (ethers : Ethers) (key : Option String) (usable : IsUsable ethers key)
    (lost : String) where
  abbrev H : Contract
  H = Lost lost

  abbrev Q : Error → Type 0
  Q e = Unit

  axios_lost :
      (R : Type 0) (headers : Headers) (hash base : String)
      → (hash ≢ lost → R)
      → Within H (λ (r : Response). R) Q 1 (axios (download_request headers hash base))
  unfolding axios axios_reply
  axios_lost R headers hash base other = λ reply honest. read reply honest
    where
      read :
          (reply : Reply)
          → H (http (download_request headers hash base)) reply
          → Within H (λ (r : Response). R) Q 0 (axios_reply reply)
      read (answered r) h = elim (Bool-cases (ok_status r.status)) [
        | inl good ↦
            rw good
              (other (λ same. let bad = h base (ap (λ t. base <> download_path t) same) in cc))
        | inr bad ↦ rw bad tt
      ]
      read (refused e) h = tt
      read (settled ends) h = tt

  -- A download of another hash may do anything, but one of the lost hash returns nothing.
  download_single_chunk-Lost :
      (R : Type 0) (hash : String)
      → (hash ≢ lost → R)
      → Within H (λ b. R) Q 27 (download_single_chunk ethers key hash)
  unfolding download_single_chunk
  download_single_chunk-Lost R hash other =
      let path = download_path hash in
      let send = λ (headers : Headers) (b : String). axios (download_request headers hash b) in
      Within-bind H (λ _. Unit {0}) (λ b. R) Q 11 16 (get_node storage)
        (λ base. signed_headers ethers key "GET" path >>= λ headers.
          send_twice storage (send headers) base >>= λ resp. done resp.bytes)
        (get_node-Within H Q storage)
        λ base _.
          Within-bind H (λ _. Unit {0}) (λ b. R) Q 1 15 (signed_headers ethers key "GET" path)
            (λ headers. send_twice storage (send headers) base >>= λ resp. done resp.bytes)
            (signed_headers-Within H Q ethers key "GET" path usable)
            λ headers _.
              Within-bind H (λ (r : Response). R) (λ b. R) Q 15 0
                (send_twice storage (send headers) base) (λ resp. done resp.bytes)
                (send_twice-Within H Q (λ (r : Response). R) storage (send headers) base
                  (λ b. axios_lost R headers hash b other))
                (λ resp r. r)

  module _ (env : Env) (codec : Codec)
      (honest : (c : Call) (w : env.World) → Lost lost c (env.serve c w).0) where
    -- The transfer of the chunks ends in an error.
    transfer_all-lost :
        (entries : List Json) (k rounds : ℕ) (s : NodeRouter) (w : env.World)
        → k < length entries
        → entry_text (get_elem? entries k) ≡ lost
        → length entries * 30 + worker_limit ≤ rounds
        → (e : Error) × (s' : NodeRouter) × (w' : env.World) × (transfer_all env ethers key codec
              (download_chunk env ethers key codec entries)
              (length entries)
              (rotations rounds worker_limit)
              s
              w
            ≡ (err e, s', w'))
    transfer_all-lost entries k rounds s w lt is enough =
        let jobs = download_chunk env ethers key codec entries in
        let r =
          transfer_all env ethers key codec jobs (length entries) (rotations rounds worker_limit) s
            w in
        failed r (
          run_pool-Ends H P Q (length entries) worker_limit env honest jobs 27 job-Within rounds s w
            (omega arith) (omega arith))
      where
        P : ℕ → Bytes → Type 0
        P j b = j ≢ k

        job-Within :
            (j : ℕ)
            → j < length entries
            → Within H (λ b. j ≢ k) Q 27 (download_chunk env ethers key codec entries j)
        job-Within j lt' =
            unfold feedo.Storage.Files.download_chunk in
            download_single_chunk-Lost (j ≢ k) (entry_text (get_elem? entries j))
              (λ other same. other (ap (λ i. entry_text (get_elem? entries i)) same ∙ is))

        failed :
            (r : Outcome (List (Option Bytes)) × NodeRouter × env.World)
            → Ends (IsComplete (λ j b. j ≢ k) Q (length entries)) Q ⊥ r.0
            → (e : Error) × (s' : NodeRouter) × (w' : env.World) × (r ≡ (err e, s', w'))
        failed (ok bs, s', w') (size, all) = let (b, at, other) = all k lt in absurd (other refl)
        failed (err e, s', w') h = (e, s', w', refl)
        failed (pending, s', w') h = absurd h

    -- A file of which the nodes have lost a chunk comes back as the bytes of its manifest, without
    -- an error. If the key is usable, no request for the hash of the chunk gets an answer that is
    -- ok, a download of the hash of the file gives a manifest below the limit of which an entry is
    -- the hash of the chunk, and the workers take turns in enough rounds, then `downloadFile`
    -- returns the bytes of the manifest.
    pub download_file-lost_chunk :
        (hash : String) (raw : Bytes) (entries : List Json) (k rounds : ℕ) (s s' : NodeRouter)
        (w w' : env.World)
        → run env (download_single_chunk ethers key hash) s w ≡ (ok raw, s', w')
        → length raw < manifest_limit
        → parsed_chunks codec "feedo_manifest" raw ≡ some entries
        → k < length entries
        → entry_text (get_elem? entries k) ≡ lost
        → length entries * 30 + worker_limit ≤ rounds
        → (download_file env ethers key codec (rotations rounds worker_limit) hash s w).0 ≡ ok raw
    unfolding download_file interpret expand
    download_file-lost_chunk hash raw entries k rounds s s' w w' first short is lt named enough =
        let schedule = rotations rounds worker_limit in
        let (e, s'', w'', failed) = transfer_all-lost entries k rounds s' w' lt named enough in
        let falls_back : interpret env ethers key codec schedule raw s' w' ≡ (ok raw, s'', w'') =
          rw (interpret, lt→ltb (length raw) manifest_limit short, is)
            (attempt_of_err env NodeRouter (expand env ethers key codec schedule raw (some entries))
              (λ _. give env NodeRouter raw) s' w'
              (and_then_of_err env NodeRouter
                (transfer_all env ethers key codec (download_chunk env ethers key codec entries)
                  (length entries) schedule)
                (λ bs. joined env ethers key codec (join_chunks bs)) s' w' failed)) in
        ap (λ (o : Outcome Bytes × NodeRouter × env.World). o.0)
          (and_then_of_ok env NodeRouter (run env (download_single_chunk ethers key hash))
              (interpret env ethers key codec schedule) s w first
            ∙ falls_back)
