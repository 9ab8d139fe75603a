-- ===== src/Storage/RoundTrip.antt =====
-- Storing a file and fetching it again, and what failing nodes change.
use feedo.Base.{
  ◌⊎◌, ℕ, ◌+◌, ◌*◌, ◌≤◌, ◌<◌, ◌≡◌, refl, subst, String, List, Option, some, true, false, inl, inr,
  length, leb, All, Bool-cases,
}
use feedo.Json.{Codec}
use feedo.Runtime.Wire.{Bytes, Call, Error}
use feedo.Runtime.Async.{Env, Outcome, ok, err, pending}
use feedo.Runtime.Bounds.{Ends}
use feedo.Runtime.Pool.Rotation.{rotations}
use feedo.Router.State.{NodeRouter}
use feedo.Wallet.{Ethers}
use feedo.Storage.Contract.{Honest}
use feedo.Storage.Transfer.{IsUsable}
use feedo.Storage.Chunks.{chunks_of, concat, concat-chunks_of}
use feedo.Storage.Files.{worker_limit, manifest_limit, parsed_chunks, upload_file, download_file}
use feedo.Storage.Manifest.{manifest_chunks-manifest}
use feedo.Storage.Upload.{manifest_of, stored_form, upload_file-Ends}
use feedo.Storage.Download.{IsPlain, IsManifest, download_plain-Ends, download_manifest-Ends}

Ends-eq-ok : {A : Type 0} (a : A) (o : Outcome A) → Ends (λ x. x ≡ a) (λ _. ⊥) ⊥ o → o ≡ ok a
Ends-eq-ok a (ok x) h = rw h
Ends-eq-ok a (err e) h = absurd h
Ends-eq-ok a pending h = absurd h

Ends-ok :
    {A : Type 0} (P : A → Type 0) (Q : Error → Type 0) (R : Type 0) (o : Outcome A) (a : A)
    → Ends P Q R o
    → o ≡ ok a
    → P a
Ends-ok P Q R (ok x) a h e = let is : x ≡ a = cc in subst P is h
Ends-ok P Q R (err x) a h e = cc
Ends-ok P Q R pending a h e = cc

-- What a file must be like to be read back: a file of one chunk is not itself a manifest, and the
-- manifest of any other is below the limit and survives JSON.
pub record IsReadable (codec : Codec) (address_of : Bytes → String) (c : ℕ) (content : Bytes)
    (filename : String) : Type 0 where
  pub single : leb (length content) c ≡ true → IsPlain codec content
  pub short :
      leb (length content) c ≡ false
      → length (codec.stringify (manifest_of address_of codec c content filename)) < manifest_limit
  pub parses :
      leb (length content) c ≡ false
      → codec.parse (codec.stringify (manifest_of address_of codec c content filename))
        ≡ some (manifest_of address_of codec c content filename)

readable-IsManifest :
    (codec : Codec) (address_of : Bytes → String) (c : ℕ) (content : Bytes) (filename : String)
    → IsReadable codec address_of c content filename
    → leb (length content) c ≡ false
    → IsManifest codec address_of
        (chunks_of c content)
        (codec.stringify (manifest_of address_of codec c content filename))
readable-IsManifest codec address_of c content filename r large = (
  r.short large,
  rw (r.parses large, parsed_chunks) (manifest_chunks-manifest filename (length content) c _),
)

module _ (env : Env) (ethers : Ethers) (key : Option String) (codec : Codec)
    (address_of : Bytes → String) (Stored : Bytes → Type 0) (usable : IsUsable ethers key) where
  module _
      (honest : (c : Call) (w : env.World) → Honest address_of Stored ⊥ c (env.serve c w).0) where
    -- A file that is stored and then fetched comes back. If every request is answered well (a good
    -- upload returns the address of the content, a good download the content of the address, for
    -- the chunks and the stored form), the key is usable, the chunk size is positive, the workers
    -- take turns in enough rounds, a file of one chunk is no manifest and the manifest of any other
    -- file is below its limit and survives JSON, then `uploadFile` returns the address of the
    -- file's stored form and `downloadFile` of that address returns the file, from whatever state
    -- of the router and of the network.
    pub file_round_trip :
        (c rounds : ℕ) (content : Bytes) (filename : String) (s s' : NodeRouter) (w w' : env.World)
        → 0 < c
        → Stored (stored_form address_of codec c content filename)
        → All Stored (chunks_of c content)
        → IsReadable codec address_of c content filename
        → length (chunks_of c content) * 30 + worker_limit ≤ rounds
        → ((upload_file env ethers key codec c
              (rotations rounds worker_limit)
              content
              filename
              s
              w).0
            ≡ ok (address_of (stored_form address_of codec c content filename)))
          × ((download_file env ethers key codec
                (rotations rounds worker_limit)
                (address_of (stored_form address_of codec c content filename))
                s'
                w').0
              ≡ ok content)
    file_round_trip c rounds content filename s s' w w' pos whole parts readable enough = (
      Ends-eq-ok (address_of (stored_form address_of codec c content filename)) _ (
          upload_file-Ends env ethers key codec address_of Stored ⊥ usable honest ⊥ c
            (rotations rounds worker_limit) content filename s w whole parts
            (inr (rounds, refl, enough))),
      elim (Bool-cases (leb (length content) c)) [
        | inl small ↦ rw small (
            Ends-eq-ok content _ (
              download_plain-Ends env ethers key codec address_of Stored ⊥ usable honest ⊥
                (rotations rounds worker_limit) content s' w' (rw small at whole)
                (readable.single small)))
        | inr large ↦
            let raw = codec.stringify (manifest_of address_of codec c content filename) in
            rw large (
              Ends-eq-ok content _ (
                opened raw
                  (download_file env ethers key codec (rotations rounds worker_limit)
                    (address_of raw) s' w').0
                  (download_manifest-Ends env ethers key codec address_of Stored ⊥ usable honest ⊥
                    (rotations rounds worker_limit) raw (chunks_of c content) s' w'
                    (rw large at whole) parts (inr (rounds, refl, enough))
                    (readable-IsManifest codec address_of c content filename readable large))))
      ],
    )
      where
        opened :
            (raw : Bytes) (o : Outcome Bytes)
            → Ends (λ b. (b ≡ concat (chunks_of c content)) ⊎ (⊥ × (b ≡ raw))) (λ _. ⊥) ⊥ o
            → Ends (λ b. b ≡ content) (λ _. ⊥) ⊥ o
        opened raw (ok b) (inl h) = rw (← concat-chunks_of c content pos) h
        opened raw (ok b) (inr h) = absurd h.0
        opened raw (err e) h = h
        opened raw pending h = h

  module _
      (honest : (c : Call) (w : env.World)
        → Honest address_of Stored Unit c (env.serve c w).0) where
    -- Whatever the schedule of the workers, and if nodes may refuse, fail or be silent as long as a
    -- good answer to an upload of a chunk or of the stored form is its address: an `uploadFile`
    -- that returns, returns the address of the file's stored form, which is the file itself or the
    -- manifest over the addresses of its chunks in order.
    pub upload_file-address :
        (c : ℕ) (schedule : List ℕ) (content : Bytes) (filename h : String) (s : NodeRouter)
        (w : env.World)
        → Stored (stored_form address_of codec c content filename)
        → All Stored (chunks_of c content)
        → (upload_file env ethers key codec c schedule content filename s w).0 ≡ ok h
        → h ≡ address_of (stored_form address_of codec c content filename)
    upload_file-address c schedule content filename h s w whole parts e =
        Ends-ok _ (λ _. Unit {0}) Unit
          (upload_file env ethers key codec c schedule content filename s w).0 h
          (upload_file-Ends env ethers key codec address_of Stored Unit usable honest Unit c
            schedule content filename s w whole parts (inl tt))
          e

    -- Whatever the schedule of the workers, and if nodes may refuse, fail or be silent as long as
    -- good answers are honest about the chunks and the stored form: for a positive chunk size and a
    -- readable file, a `downloadFile` of the address of the stored form that returns, returns the
    -- file, or else the stored form itself.
    pub download_file-content :
        (c : ℕ) (schedule : List ℕ) (content b : Bytes) (filename : String) (s : NodeRouter)
        (w : env.World)
        → 0 < c
        → Stored (stored_form address_of codec c content filename)
        → All Stored (chunks_of c content)
        → IsReadable codec address_of c content filename
        → (download_file env ethers key codec schedule
            (address_of (stored_form address_of codec c content filename))
            s
            w).0
          ≡ ok b
        → (b ≡ content) ⊎ (b ≡ stored_form address_of codec c content filename)
    download_file-content c schedule content b filename s w pos whole parts readable e =
        elim (Bool-cases (leb (length content) c)) [
          | inl small ↦ inl (
              Ends-ok (λ x. x ≡ content) (λ _. Unit {0}) Unit
                (download_file env ethers key codec schedule (address_of content) s w).0 b
                (download_plain-Ends env ethers key codec address_of Stored Unit usable honest Unit
                  schedule content s w (rw small at whole) (readable.single small))
                (rw small at e))
          | inr large ↦
              let raw = codec.stringify (manifest_of address_of codec c content filename) in
              rw large (
                opened raw (
                  Ends-ok (λ x. (x ≡ concat (chunks_of c content)) ⊎ (Unit {0} × (x ≡ raw)))
                    (λ _. Unit {0}) Unit
                    (download_file env ethers key codec schedule (address_of raw) s w).0 b
                    (download_manifest-Ends env ethers key codec address_of Stored Unit usable
                      honest Unit schedule raw (chunks_of c content) s w (rw large at whole) parts
                      (inl tt)
                      (readable-IsManifest codec address_of c content filename readable large))
                    (rw large at e)))
        ]
      where
        opened :
            (raw : Bytes)
            → ((b ≡ concat (chunks_of c content)) ⊎ (Unit {0} × (b ≡ raw)))
            → (b ≡ content) ⊎ (b ≡ raw)
        opened raw (inl h) = inl (rw (← concat-chunks_of c content pos) h)
        opened raw (inr h) = inr h.1
