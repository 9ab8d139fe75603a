-- ===== src/Storage/Files.antt =====
-- `uploadFile` and `downloadFile`. The chunk size is a parameter; the program's is `chunk_size`.
use feedo.Base.{
  ℕ, String, ◌<>◌, List, [], ◌∷◌, ◌++◌, map, Option, none, some, Bool, true, false, length,
  get_elem?, ltb, leb, str_eq, if◌then◌else◌,
}
use feedo.Text.{to_string}
use feedo.Json.{
  Json, null, bool, num, str, arr, obj, end, field, Items, nil, cons, get_field, items_of, list_of,
  Codec,
}
use feedo.Runtime.Wire.{Bytes, type_error}
use feedo.Runtime.Async.{Env, run}
use feedo.Runtime.Pool.{run_pool}
use feedo.Runtime.Session.{Session, and_then, give, throw, attempt}
use feedo.Router.State.{NodeRouter}
use feedo.Router.Discover.{Action}
use feedo.Wallet.{Ethers}
use feedo.Storage.Requests.{upload_single_chunk, download_single_chunk}
use feedo.Storage.Chunks.{chunks_of}

-- `const limit = 10`, the number of workers.
abbrev pub worker_limit : ℕ
worker_limit = 10

-- A raw download below this size may be a manifest.
abbrev pub manifest_limit : ℕ
manifest_limit = 1048576

-- `chunks[index]`; the pool asks only for indices of chunks.
abbrev pub chunk_at : List Bytes → ℕ → Bytes
chunk_at chunks k = elim (get_elem? chunks k) [ some b ↦ b | none ↦ [] ]

-- A hole of `hashes` is written as `null`.
unfoldable pub hash_json : Option String → Json
hash_json none = null
hash_json (some h) = str h

-- The object that `uploadFile` and `uploadPrivateFile` store for the hashes of the chunks.
unfoldable pub manifest : String → String → ℕ → ℕ → List (Option String) → Json
unfolding hash_json
manifest kind filename size c hashes = obj (
    field "type" (str kind) (
      field "filename" (str filename) (
        field "total_size" (num size) (
          field "chunk_size" (num c)
            (field "chunks" (arr (items_of (map hash_json hashes))) end)))))

-- `json.type === kind && Array.isArray(json.chunks)`: the entries of `json.chunks`, if so.
unfoldable pub is_kind : String → Option Json → Bool
is_kind kind (some (str k)) = str_eq k kind
is_kind kind _ = false

unfoldable pub chunk_entries : Option Json → Option (List Json)
chunk_entries (some (arr items)) = some (list_of items)
chunk_entries _ = none

unfoldable pub manifest_chunks : String → Json → Option (List Json)
unfolding is_kind chunk_entries
manifest_chunks kind (obj fields) =
    if is_kind kind (get_field "type" fields)
    then chunk_entries (get_field "chunks" fields)
    else none
manifest_chunks kind _ = none

-- `String(v)`, as in `encodeURIComponent(hash)`: an array is joined by commas, with nothing for a
-- `null` in it.
unfoldable mutual
  pub text_of : Json → String
  text_of null = "null"
  text_of (bool true) = "true"
  text_of (bool false) = "false"
  text_of (num n) = to_string n
  text_of (str s) = s
  text_of (arr items) = first_text items
  text_of (obj fields) = "[object Object]"

  pub first_text : Items → String
  first_text nil = ""
  first_text (cons null vs) = more_text vs
  first_text (cons v vs) = text_of v <> more_text vs

  pub more_text : Items → String
  more_text nil = ""
  more_text (cons null vs) = "," <> more_text vs
  more_text (cons v vs) = "," <> text_of v <> more_text vs

unfoldable pub entry_text : Option Json → String
unfolding text_of
entry_text none = "undefined"
entry_text (some v) = text_of v

-- The loop that joins the chunks; a hole has no `byteLength`.
unfoldable pub join_chunks : List (Option Bytes) → Option Bytes
join_chunks [] = some []
join_chunks (none ∷ bs) = none
join_chunks (some b ∷ bs) = elim (join_chunks bs) [ none ↦ none | some rest ↦ some (b ++ rest) ]

-- What raw data says, if it parses and is a manifest.
abbrev pub parsed_chunks : Codec → String → Bytes → Option (List Json)
parsed_chunks codec kind raw = elim (codec.parse raw) [
  | none ↦ none
  | some v ↦ manifest_chunks kind v
]

module _ (env : Env) (ethers : Ethers) (private_key : Option String) (codec : Codec) where
  abbrev pub Method : Type 0 → Type 0
  Method = Session env NodeRouter

  -- `await Promise.all(workers)` over single transfers.
  abbrev pub transfer_all : {B : Type 0} → (ℕ → Action B) → ℕ → List ℕ → Method (List (Option B))
  transfer_all jobs n schedule = run_pool env jobs n worker_limit schedule

  abbrev pub upload_chunk : String → List Bytes → ℕ → Action String
  upload_chunk prefix chunks k =
      upload_single_chunk ethers private_key (chunk_at chunks k) (prefix <> to_string k)

  abbrev pub upload_manifest : Json → Method String
  upload_manifest m =
      run env (upload_single_chunk ethers private_key (codec.stringify m) "manifest.json")

  unfoldable pub upload_file : ℕ → List ℕ → Bytes → String → Method String
  upload_file c schedule content filename =
      if leb (length content) c
      then run env (upload_single_chunk ethers private_key content filename)
      else let chunks = chunks_of c content in
        and_then env NodeRouter
          (transfer_all (upload_chunk (filename <> ".part") chunks) (length chunks) schedule)
          λ hashes. upload_manifest (manifest "feedo_manifest" filename (length content) c hashes)

  -- The chunks of a manifest, joined. `none` is the TypeError of a hole.
  unfoldable pub joined : Option Bytes → Method Bytes
  joined none = throw env NodeRouter type_error
  joined (some b) = give env NodeRouter b

  unfoldable pub download_chunk : List Json → ℕ → Action Bytes
  download_chunk entries k =
      download_single_chunk ethers private_key (entry_text (get_elem? entries k))

  unfoldable pub expand : List ℕ → Bytes → Option (List Json) → Method Bytes
  expand schedule raw none = give env NodeRouter raw
  expand schedule raw (some entries) =
      and_then env NodeRouter (transfer_all (download_chunk entries) (length entries) schedule)
        λ chunks. joined (join_chunks chunks)

  -- What a raw download stands for. The `catch` block falls back to the raw data, whatever was
  -- thrown.
  unfoldable pub interpret : List ℕ → Bytes → Method Bytes
  interpret schedule raw =
      if ltb (length raw) manifest_limit
      then attempt env NodeRouter (expand schedule raw (parsed_chunks codec "feedo_manifest" raw))
          (λ _. give env NodeRouter raw)
      else give env NodeRouter raw

  unfoldable pub download_file : List ℕ → String → Method Bytes
  unfolding interpret
  download_file schedule hash =
      and_then env NodeRouter (run env (download_single_chunk ethers private_key hash))
        (interpret schedule)
