-- ===== src/Storage/Tests.antt =====
-- A file of three bytes, stored in two chunks and a manifest by nodes that answer at once.
use feedo.Router.Select.{get_node}
use feedo.Router.Discover.{axios}
use feedo.Base.{
  ap, ◌∙◌, Bool-cases, truthy, replicate, ◌⊎◌, map, All, length, ℕ, suc, ◌≤◌, ◌<◌, ◌≡◌, refl,
  String, ◌<>◌, List, [], ◌∷◌, none, some, true, inl, inr, ◌==◌, if◌then◌else◌, arith,
}
use Prim.Native.Char.{code}
use Prim.Native.String.{[], ◌∷◌}
use text.Mathlib.TextLemmas.{nil-append, cons-append}
use feedo.Json.{Json, str, null, get_field, list_of, items_of, Codec}
use feedo.Text.{encode_uri_component}
use feedo.Runtime.Wire.{
  Bytes, Body, empty, form, json, other, Call, http, race, Reply, answered, refused, settled,
  ok_status,
}
use feedo.Runtime.Async.{Env, ok, run}
use feedo.Runtime.Pool.{run_pool}
use feedo.Runtime.Bounds.{Within}
use feedo.Runtime.Pool.Rotation.{rotations}
use feedo.Router.State.{NodeRouter, storage, new_router, set_active}
use feedo.Wallet.{Ethers, signed_headers}
use feedo.Storage.Contract.{Honest}
use feedo.Storage.Requests.{download_path, send_twice, upload_single_chunk, download_single_chunk}
use feedo.Storage.Transfer.{IsUsable, upload_single_chunk-Within, download_single_chunk-Within}
use feedo.Storage.Chunks.{chunks_of, concat, concat-chunks_of, chunks_of-sizes}
use feedo.Storage.Files.{
  expand, download_chunk, entry_text, hash_json, manifest_chunks, manifest, upload_file,
  download_file,
}
use feedo.Storage.Manifest.{manifest_chunks-manifest}
use feedo.Storage.Upload.{stored_form}
use feedo.Storage.Lost.{Lost, download_file-lost_chunk}
use feedo.Storage.RoundTrip.{
  IsReadable, file_round_trip, upload_file-address, download_file-content,
}

abbrev file : Bytes
file = 1 ∷ 2 ∷ 3 ∷ []

abbrev manifest_bytes : Bytes
manifest_bytes = 9 ∷ []

abbrev address_of : Bytes → String
address_of [] = "m"
address_of (n ∷ b) = if n == 1 then "a" else if n == 3 then "b" else "m"

abbrev content_of : ℕ → Bytes
content_of n = if n == b'a' then 1 ∷ 2 ∷ [] else if n == b'b' then 3 ∷ [] else manifest_bytes

abbrev Stored : Bytes → Type 0
Stored b = (b ≡ 1 ∷ 2 ∷ []) ⊎ (b ≡ 3 ∷ []) ⊎ (b ≡ manifest_bytes)

unfoldable pub last_code : ℕ → String → ℕ
last_code d [] = d
last_code d (c ∷ s) = last_code (code c) s

pub last_code-append : (d : ℕ) (s t : String) → last_code d (s <> t) ≡ last_code (last_code d s) t
unfolding last_code
last_code-append d [] t = rw nil-append refl
last_code-append d (c ∷ s) t = rw cons-append (last_code-append (code c) s t)

abbrev receipt : Body → String
receipt (form filename content) = address_of content
receipt (json s) = ""
receipt empty = ""

abbrev serve_one : Call → Reply
serve_one (http req) = answered (record {
  status = 200;
  parsed = other null;
  text = receipt req.body;
  bytes = content_of (last_code 0 req.url);
})
serve_one (race urls) = settled ((0, true) ∷ [])

abbrev nodes_up : Env
nodes_up = record { World = ℕ; serve = λ c w. (serve_one c, suc w); clock = λ w. w }

abbrev two_chunks : Json
two_chunks = manifest "feedo_manifest" "f.txt" 3 2 (some "a" ∷ some "b" ∷ [])

abbrev codec : Codec
codec = record { stringify = λ v. manifest_bytes; parse = λ b. some two_chunks }

abbrev ethers : Ethers
ethers = record {
  address = λ k. some "0x1";
  sign = λ k t. "0x2";
  public_key = λ k. "0x3";
  compute_address = λ k. none;
}

key-IsUsable : IsUsable ethers (some "k")
key-IsUsable k is = ("0x1", refl)

content_of-address_of :
    (base : String) (content : Bytes)
    → Stored content
    → content_of (last_code 0 (base <> download_path (address_of content))) ≡ content
unfolding last_code encode_uri_component
content_of-address_of base content (inl is) =
    rw (is, last_code-append 0 base (download_path "a")) refl
content_of-address_of base content (inr (inl is)) =
    rw (is, last_code-append 0 base (download_path "b")) refl
content_of-address_of base content (inr (inr is)) =
    rw (is, last_code-append 0 base (download_path "m")) refl

nodes_up-Honest :
    (Lossy : Type 0) (c : Call) (w : ℕ) → Honest address_of Stored Lossy c (serve_one c)
unfolding ok_status
nodes_up-Honest Lossy (http req) w = inr (
  refl,
  record {
    uploaded = λ filename content stored is. rw is refl;
    downloaded = λ base content stored is get. rw is (content_of-address_of base content stored);
  },
)
nodes_up-Honest Lossy (race urls) w = tt

file-IsReadable : IsReadable codec address_of 2 file "f.txt"
file-IsReadable = record {
  single = λ e. cc;
  short = λ e. omega arith;
  parses = λ e. unfold manifest chunks_of in refl;
}

file-Stored : All Stored (chunks_of 2 file)
unfolding chunks_of
file-Stored = (inl refl, (inr (inl refl), tt))

-- Both transfers, with five rounds more than are needed.
file_transferred :
    ((upload_file nodes_up ethers
        (some "k")
        codec
        2
        (rotations 75 10)
        file
        "f.txt"
        (new_router none)
        0).0
      ≡ ok "m")
    × ((download_file nodes_up ethers (some "k") codec (rotations 75 10) "m" (new_router none) 5).0
        ≡ ok file)
unfolding chunks_of
file_transferred =
    file_round_trip nodes_up ethers (some "k") codec address_of Stored key-IsUsable
      (nodes_up-Honest ⊥) 2 75 file "f.txt" (new_router none) (new_router none) 0 5 (omega arith)
      (inr (inr refl)) file-Stored file-IsReadable (omega arith)

file_round_trip_example :
    ((upload_file nodes_up ethers
        (some "k")
        codec
        2
        (rotations 70 10)
        file
        "f.txt"
        (new_router none)
        0).0
      ≡ ok "m")
    × ((download_file nodes_up ethers (some "k") codec (rotations 70 10) "m" (new_router none) 5).0
        ≡ ok file)
unfolding chunks_of
file_round_trip_example =
    file_round_trip nodes_up ethers (some "k") codec address_of Stored key-IsUsable
      (nodes_up-Honest ⊥) 2 70 file "f.txt" (new_router none) (new_router none) 0 5 (omega arith)
      (inr (inr refl)) file-Stored file-IsReadable (omega arith)

upload_file-address_example : "m" ≡ address_of (stored_form address_of codec 2 file "f.txt")
upload_file-address_example =
    upload_file-address nodes_up ethers (some "k") codec address_of Stored key-IsUsable
      (nodes_up-Honest Unit) 2 (rotations 75 10) file "f.txt" "m" (new_router none) 0
      (inr (inr refl)) file-Stored file_transferred.0

download_file-content_example : (file ≡ file) ⊎ (file ≡ stored_form address_of codec 2 file "f.txt")
download_file-content_example =
    download_file-content nodes_up ethers (some "k") codec address_of Stored key-IsUsable
      (nodes_up-Honest Unit) 2 (rotations 75 10) file file "f.txt" (new_router none) 5 (omega arith)
      (inr (inr refl)) file-Stored file-IsReadable file_transferred.1

concat-chunks_of_example : concat (chunks_of 2 file) ≡ file
concat-chunks_of_example = concat-chunks_of 2 file (omega arith)

chunks_of-sizes_example : All (λ b. (0 < length b) × (length b ≤ 2)) (chunks_of 2 file)
chunks_of-sizes_example = chunks_of-sizes 2 file (omega arith)

manifest_chunks-manifest_test :
    manifest_chunks "feedo_manifest" two_chunks ≡ some (map hash_json (some "a" ∷ some "b" ∷ []))
manifest_chunks-manifest_test = manifest_chunks-manifest "f.txt" 3 2 (some "a" ∷ some "b" ∷ [])

upload_single_chunk-Within_test :
    Within
      (Honest address_of Stored Unit)
      (λ h. h ≡ "b")
      (λ _. Unit)
      27
      (upload_single_chunk ethers (some "k") (3 ∷ []) "f.txt.part1")
upload_single_chunk-Within_test =
    upload_single_chunk-Within address_of Stored Unit ethers (some "k") key-IsUsable (3 ∷ [])
      "f.txt.part1" (inr (inl refl))

download_single_chunk-Within_test :
    Within
      (Honest address_of Stored Unit)
      (λ b. b ≡ 3 ∷ [])
      (λ _. Unit)
      27
      (download_single_chunk ethers (some "k") "b")
download_single_chunk-Within_test =
    download_single_chunk-Within address_of Stored Unit ethers (some "k") key-IsUsable (3 ∷ [])
      (inr (inl refl))

-- The chunk "b" is lost; the manifest that names it is still there.
abbrev serve_lossy : Call → Reply
serve_lossy (http req) =
    if last_code 0 req.url == b'b' then refused "ECONNREFUSED" else serve_one (http req)
serve_lossy (race urls) = settled ((0, true) ∷ [])

abbrev node_lost : Env
node_lost = record { World = ℕ; serve = λ c w. (serve_lossy c, suc w); clock = λ w. w }

abbrev ready : NodeRouter
ready = set_active storage (some "http://n") (new_router none)

-- The first worker alone, to its failure.
abbrev one_worker : List ℕ
one_worker = replicate 32 0

-- The second node that is tried, the fallback, is down too.
abbrev tried : NodeRouter
tried = set_active storage (some "https://api.feedo.ink/storage") ready

-- The bytes of the manifest come back as if they were the file.
lost_chunk_test :
    download_file node_lost ethers (some "k") codec one_worker "m" ready 0
    ≡ (ok manifest_bytes, tried, 6)
unfolding run download_single_chunk truthy signed_headers get_node send_twice axios last_code
    encode_uri_component new_router download_chunk run_pool entry_text download_file manifest_chunks
    manifest get_field list_of items_of expand
lost_chunk_test = refl

last_code_lost : (base : String) → last_code 0 (base <> download_path "b") ≡ b'b'
unfolding last_code encode_uri_component
last_code_lost base = last_code-append 0 base (download_path "b")

node_lost-Lost : (c : Call) (w : ℕ) → Lost "b" c (node_lost.serve c w).0
unfolding ok_status
node_lost-Lost (http req) w = elim (Bool-cases (last_code 0 req.url == b'b')) [
  | inl gone ↦ rw gone tt
  | inr there ↦ rw there (λ base is.
      let ends : last_code 0 req.url ≡ b'b' = ap (last_code 0) is ∙ last_code_lost base in
      absurd (let e = rw ends at there in cc))
]
node_lost-Lost (race urls) w = tt

first_download :
    run node_lost (download_single_chunk ethers (some "k") "m") ready 0
    ≡ (ok manifest_bytes, ready, 1)
unfolding run download_single_chunk truthy signed_headers get_node send_twice axios last_code
    encode_uri_component new_router
first_download = refl

download_file-lost_chunk_example :
    (download_file node_lost ethers (some "k") codec (rotations 70 10) "m" ready 0).0
    ≡ ok manifest_bytes
unfolding manifest_chunks manifest get_field list_of items_of entry_text
download_file-lost_chunk_example =
    download_file-lost_chunk ethers (some "k") key-IsUsable "b" node_lost codec node_lost-Lost "m"
      manifest_bytes (str "a" ∷ str "b" ∷ []) 1 70 ready ready 0 1 first_download (omega arith) refl
      (omega arith) refl (omega arith)
