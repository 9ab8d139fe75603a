-- ===== src/Client/Tests.antt =====
-- A private file of three bytes in two chunks, sealed by a cipher that only adds a tag.
use feedo.Base.{
  ◌⊎◌, inl, inr, ℕ, ◌≡◌, refl, String, ◌<>◌, [], ◌∷◌, ◌++◌, Option, none, some, true, All, ◌==◌,
  if◌then◌else◌, replicate, arith, str_eq, Bool-cases, truthy, ap, ◌∙◌, sym,
}
use feedo.Json.{Codec, Fields, get_field, null, str, obj, field, end}
use feedo.Text.{encode_uri_component}
use feedo.Runtime.Wire.{
  Body, empty, form, json, Bytes, Parsed, other, Call, http, race, Reply, Response, answered,
  refused, settled, ok_status,
}
use feedo.Runtime.Async.{Env, ok}
use feedo.Runtime.Pool.Rotation.{rotations}
use feedo.Router.State.{new_router}
use feedo.Router.Queries.{HasNoJson, IsQuery}
use feedo.Wallet.{Ethers}
use feedo.Crypto.{Ciphers, encrypt_data, decrypt_symmetric_key_ecies}
use feedo.Storage.Contract.{Honest}
use feedo.Storage.Requests.{download_path}
use feedo.Storage.Chunks.{chunks_of}
use feedo.Storage.Files.{manifest}
use feedo.Storage.Tests.{last_code, last_code-append}
use feedo.Consensus.Ledger.{IsLedger, to_node, access_path}
use feedo.Client.{encrypt_chunks, download_private_file}
use feedo.Client.Chunks.{IsCipher}
use feedo.Client.Upload.{private_manifest}
use feedo.Client.RoundTrip.{IsOpenable, download_private_file-content}

abbrev pub file : Bytes
file = 4 ∷ 5 ∷ 6 ∷ []

abbrev pub sym_key : Bytes
sym_key = 1 ∷ []

-- The symmetric key is the only text.
abbrev pub ciphers : Ciphers
ciphers = record {
  hmac_sha256 = λ k s. k;
  seal = λ key nonce b. (b, replicate 16 0);
  unseal = λ key nonce c t. some c;
  ecies_encrypt = λ k b. some b;
  ecies_decrypt = λ k b. some b;
  to_hex = λ b. "01";
  from_hex = λ s. sym_key;
}

ciphers-IsCipher : IsCipher ciphers
ciphers-IsCipher = record { tag_size = λ key nonce b. refl; opens = λ key nonce b. refl }

abbrev pub nonces : ℕ → Bytes
nonces k = replicate 12 k

abbrev first : Bytes
first = replicate 12 0 ++ (4 ∷ 5 ∷ []) ++ replicate 16 0

abbrev second : Bytes
second = replicate 12 1 ++ (6 ∷ []) ++ replicate 16 0

abbrev index_file : Bytes
index_file = 9 ∷ []

abbrev pub Stored : Bytes → Type 0
Stored b = (b ≡ first) ⊎ ((b ≡ second) ⊎ (b ≡ index_file))

abbrev pub address_of : Bytes → String
address_of [] = ""
address_of (n ∷ b) = if n == 0 then "a" else if n == 9 then "m" else "b"

abbrev pub content_of : ℕ → Bytes
content_of n = if n == b'a' then first else if n == b'm' then index_file else second

-- An upload is answered by the address of what it carries.
abbrev pub receipt : Body → String
receipt (form filename content) = address_of content
receipt (json v) = ""
receipt empty = ""

-- The nodes keep the last key that was granted.
abbrev granted_in : Body → Option String → Option String
granted_in (json (obj fields)) w = elim (get_field "encrypted_symmetric_key" fields) [
  | some (str sealed) ↦ some sealed
  | _ ↦ w
]
granted_in (json v) w = w
granted_in (form filename content) w = w
granted_in empty w = w

abbrev grant_of : Option String → Parsed
grant_of none = other null
grant_of (some sealed) = other (obj (field "encrypted_symmetric_key" (str sealed) end))

abbrev serve : Call → Option String → Reply × Option String
serve (http req) w = (
  answered (record {
    status = 200;
    parsed = grant_of w;
    text = receipt req.body;
    bytes = content_of (last_code 0 req.url);
  }),
  if str_eq req.method "POST" then granted_in req.body w else w,
)
serve (race urls) w = (settled ((0, true) ∷ []), w)

abbrev nodes_up : Env
nodes_up = record { World = Option String; serve = serve; clock = λ w. 0 }

abbrev pub codec : Codec
codec = record {
  stringify = λ v. index_file;
  parse = λ b.
      some
        (manifest "feedo_encrypted_manifest" "encrypted_file.bin" 3 2 (some "a" ∷ some "b" ∷ []));
}

abbrev ethers : Ethers
ethers = record {
  address = λ k. some "0x1";
  sign = λ k t. "0x2";
  public_key = λ k. "0x3";
  compute_address = λ k. none;
}

pub content_of-address_of :
    (base : String) (content : Bytes)
    → Stored content
    → content_of (last_code 0 (base <> download_path (address_of content))) ≡ content
unfolding last_code encode_uri_component
content_of-address_of base content (inl is) =
    rw (is, last_code-append 0 base (download_path "a")) refl
content_of-address_of base content (inr (inl is)) =
    rw (is, last_code-append 0 base (download_path "b")) refl
content_of-address_of base content (inr (inr is)) =
    rw (is, last_code-append 0 base (download_path "m")) refl

nodes_up-Honest :
    (c : Call) (w : Option String) → Honest address_of Stored ⊥ c (nodes_up.serve c w).0
unfolding ok_status
nodes_up-Honest (http req) w = inr (
  refl,
  record {
    uploaded = λ filename content stored is. rw is refl;
    downloaded = λ base content stored is get. rw is (content_of-address_of base content stored);
  },
)
nodes_up-Honest (race urls) w = tt

pub file-Stored : All Stored (encrypt_chunks ciphers nonces sym_key 0 (chunks_of 2 file))
unfolding chunks_of encrypt_chunks encrypt_data
file-Stored = (inl refl, (inr (inl refl), tt))

abbrev ledger : Option String → String → String → Option String
ledger w file_hash did = w

abbrev parsed_in : Reply → Parsed
parsed_in (answered r) = r.parsed
parsed_in (refused e) = other null
parsed_in (settled ends) = other null

nodes_up-told :
    (w : Option String) (base path sealed : String) (r : Response)
    → w ≡ some sealed
    → (nodes_up.serve (http (to_node "GET" path empty base)) w).0 ≡ answered r
    → (fields : Fields) × (r.parsed ≡ other (obj fields))
      × (get_field "encrypted_symmetric_key" fields ≡ some (str sealed))
unfolding get_field
nodes_up-told w base path sealed r held is = (
  field "encrypted_symmetric_key" (str sealed) end,
  sym (ap parsed_in is) ∙ ap grant_of held,
  refl,
)

granted_in-kept : (body : Body) (w : Option String) → HasNoJson body → granted_in body w ≡ w
granted_in-kept empty w query = refl
granted_in-kept (form filename content) w query = refl
granted_in-kept (json v) w query = absurd query

nodes_up-kept : (c : Call) (w : Option String) → IsQuery c → (nodes_up.serve c w).1 ≡ w
nodes_up-kept (http req) w query = elim (Bool-cases (str_eq req.method "POST")) [
  | inl post ↦ rw post (granted_in-kept req.body w query)
  | inr get ↦ rw get refl
]
nodes_up-kept (race urls) w query = refl

nodes_up-IsLedger : IsLedger nodes_up ledger
unfolding get_field
nodes_up-IsLedger = record {
  told = λ w base file_hash did sealed r held is.
      nodes_up-told w base (access_path file_hash did) sealed r held is;
  kept = λ c w file_hash did query. nodes_up-kept c w query;
}

manifest-IsOpenable :
    IsOpenable codec (private_manifest address_of codec ciphers nonces sym_key 2 file)
unfolding chunks_of encrypt_chunks encrypt_data manifest
manifest-IsOpenable = record { short = omega arith; parses = refl }

-- The reader has been granted the sealed key "01".
download_private_file-content_example :
    (download_private_file nodes_up ethers ciphers codec
      (some "k")
      none
      none
      (rotations 70 10)
      "m"
      (new_router none)
      (some "01")).0
    ≡ ok file
unfolding chunks_of truthy decrypt_symmetric_key_ecies
download_private_file-content_example =
    download_private_file-content nodes_up ethers ciphers codec none none "k" "0x1" refl refl
      address_of Stored nodes_up-Honest nonces sym_key (λ n. refl) ciphers-IsCipher ledger
      nodes_up-IsLedger 2 70 file "01" (new_router none) (some "01") (omega arith) (inr (inr refl))
      file-Stored manifest-IsOpenable (omega arith) refl (refl, refl)
