-- ===== src/Storage/Manifest.antt =====
-- The manifest of `uploadFile`, as `downloadFile` reads it.
use feedo.Base.{
  ℕ, zero, suc, ◌<◌, ◌≡◌, refl, ap, ◌∙◌, List, [], ◌∷◌, map, Option, none, some, String, length,
  get_elem?, arith, All,
}
use feedo.Json.{Json, get_field, items_of, list_of}
use feedo.Runtime.Wire.{Bytes, Error}
use feedo.Runtime.Pool.Ordered.{IsComplete}
use feedo.Storage.Chunks.{concat}
use feedo.Storage.Files.{chunk_at, hash_json, manifest, manifest_chunks, entry_text, join_chunks}

list_of-items_of : (vs : List Json) → list_of (items_of vs) ≡ vs
unfolding list_of items_of
list_of-items_of [] = refl
list_of-items_of (v ∷ vs) = ap (λ ws. v ∷ ws) (list_of-items_of vs)

-- The entries that `downloadFile` takes from the manifest that `uploadFile` builds are the hashes
-- of the chunks, in order.
pub manifest_chunks-manifest :
    (filename : String) (size c : ℕ) (hashes : List (Option String))
    → manifest_chunks "feedo_manifest" (manifest "feedo_manifest" filename size c hashes)
      ≡ some (map hash_json hashes)
unfolding manifest_chunks manifest get_field
manifest_chunks-manifest filename size c hashes = ap some (list_of-items_of (map hash_json hashes))

-- The same of the manifest of a private file, which `downloadFile` takes for no manifest.
pub manifest_chunks-private :
    (filename : String) (size c : ℕ) (hashes : List (Option String))
    → (manifest_chunks "feedo_encrypted_manifest"
          (manifest "feedo_encrypted_manifest" filename size c hashes)
        ≡ some (map hash_json hashes))
      × (manifest_chunks "feedo_manifest"
            (manifest "feedo_encrypted_manifest" filename size c hashes)
          ≡ none)
unfolding manifest_chunks manifest get_field
manifest_chunks-private filename size c hashes =
    (ap some (list_of-items_of (map hash_json hashes)), refl)

module _ {B : Type 0} (f : Bytes → B) where
  abbrev pub filled_by : List Bytes → List (Option B)
  filled_by = map (λ b. some (f b))

  list_ext :
      (chunks : List Bytes) (rs : List (Option B))
      → length rs ≡ length chunks
      → ((k : ℕ) → k < length chunks → get_elem? rs k ≡ some (some (f (chunk_at chunks k))))
      → rs ≡ filled_by chunks
  list_ext [] [] e h = refl
  list_ext [] (r ∷ rs) e h = absurd (omega arith)
  list_ext (b ∷ bs) [] e h = absurd (omega arith)
  list_ext (b ∷ bs) (r ∷ rs) e h =
      let here = h 0 (omega arith) in
      let later = list_ext bs rs (omega arith) (λ k lt. h (suc k) (omega arith)) in cc

  -- A complete array over the chunks holds the value of each chunk, in order.
  pub IsComplete-filled :
      (Q : Error → Type 0) (chunks : List Bytes) (rs : List (Option B))
      → IsComplete (λ k b. b ≡ f (chunk_at chunks k)) Q (length chunks) rs
      → rs ≡ filled_by chunks
  IsComplete-filled Q chunks rs (size, all) =
      list_ext chunks rs size
        (λ k lt. let (b, at, is) = all k lt in at ∙ ap (λ x. some (some x)) is)

pub All-chunk_at :
    (P : Bytes → Type 0) (chunks : List Bytes) (k : ℕ)
    → All P chunks
    → k < length chunks
    → P (chunk_at chunks k)
All-chunk_at P [] k h lt = absurd (omega arith)
All-chunk_at P (b ∷ bs) zero h lt = h.0
All-chunk_at P (b ∷ bs) (suc k) h lt = All-chunk_at P bs k h.1 (omega arith)

module _ (f : Bytes → String) where
  pub length-entries :
      (chunks : List Bytes) → length (map hash_json (filled_by f chunks)) ≡ length chunks
  length-entries [] = refl
  length-entries (b ∷ bs) = ap suc (length-entries bs)

  -- The text that `downloadFile` asks for at an index of the manifest.
  pub entry_text-filled :
      (chunks : List Bytes) (k : ℕ)
      → k < length chunks
      → entry_text (get_elem? (map hash_json (filled_by f chunks)) k) ≡ f (chunk_at chunks k)
  unfolding entry_text hash_json
  entry_text-filled [] k lt = absurd (omega arith)
  entry_text-filled (b ∷ bs) zero lt = refl
  entry_text-filled (b ∷ bs) (suc k) lt = entry_text-filled bs k (omega arith)

pub join_chunks-filled :
    (chunks : List Bytes) → join_chunks (filled_by (λ b. b) chunks) ≡ some (concat chunks)
unfolding join_chunks concat
join_chunks-filled [] = refl
join_chunks-filled (b ∷ bs) = rw (join_chunks-filled bs)
