-- ===== src/Client/Grantee/Tests.antt =====
-- The file of Client.Tests, for a grantee of another key.
use feedo.Base.{
  inl, inr, ◌≡◌, ◌≢◌, refl, sym, ap, ◌∙◌, String, [], ◌∷◌, Option, none, some, true, false,
  if◌then◌else◌, arith, str_eq, str_eq_iff, truthy, Bool-cases,
}
use feedo.Json.{Json, get_field, null, str, obj, field, end}
use feedo.Runtime.Wire.{
  Body, empty, form, json, Parsed, other, Call, http, race, Reply, answered, refused, settled,
  ok_status, message,
}
use feedo.Runtime.Async.{Env, ok, err}
use feedo.Runtime.Pool.Rotation.{rotations}
use feedo.Router.State.{NodeRouter, new_router}
use feedo.Router.Queries.{HasNoJson, IsQuery}
use feedo.Wallet.{Ethers}
use feedo.Storage.Contract.{Honest}
use feedo.Storage.Chunks.{chunks_of}
use feedo.Storage.Tests.{last_code}
use feedo.Consensus.Denied.{IsStrict, IsVerifying}
use feedo.Client.{encrypt_chunks, upload_private_file, download_private_file}
use feedo.Client.Tests.{
  file, sym_key, ciphers, nonces, Stored, address_of, content_of, receipt, codec,
  content_of-address_of, file-Stored,
}
use feedo.Client.Grantee.Owner.{private_upload_unread}
use feedo.Client.Grantee.Unread.{private_grant_unread}

abbrev ethers : Ethers
ethers = record {
  address = λ k. if str_eq k "k" then some "0x1" else some "0x2";
  sign = λ k t. "0x3";
  public_key = λ k. k;
  compute_address = λ k. none;
}

-- The nodes keep the last key that was granted to the DID "unknown", and tell none.
abbrev granted_to : Option Json → Option Json → Option String → Option String
granted_to (some (str did)) (some (str sealed)) w = if str_eq did "unknown" then some sealed else w
granted_to did sealed w = w

abbrev granted_in : Body → Option String → Option String
granted_in (json (obj fields)) w =
    granted_to (get_field "grantee_did" fields) (get_field "encrypted_symmetric_key" fields) w
granted_in (json v) w = w
granted_in (form filename content) w = w
granted_in empty w = w

abbrev serve : Call → Option String → Reply × Option String
serve (http req) w = (
  answered (record {
    status = 200;
    parsed = other (obj (field "encrypted_symmetric_key" null end));
    text = receipt req.body;
    bytes = content_of (last_code 0 req.url);
  }),
  granted_in req.body w,
)
serve (race urls) w = (settled ((0, true) ∷ []), w)

abbrev nodes_up : Env
nodes_up = record { World = Option String; serve = serve; clock = λ w. 0 }

nodes_up-Honest :
    (c : Call) (w : Option String) → Honest address_of Stored ⊥ c (nodes_up.serve c w).0
unfolding ok_status
nodes_up-Honest (http req) w = inr (
  refl,
  record {
    uploaded = λ filename content stored is. rw is refl;
    downloaded = λ base content stored is get. rw is (content_of-address_of base content stored);
  },
)
nodes_up-Honest (race urls) w = tt

abbrev ledger : Option String → String → String → Option String
ledger w file_hash did = if str_eq did "unknown" then w else none

nodes_up-kept : (c : Call) (w : Option String) → IsQuery c → (nodes_up.serve c w).1 ≡ w
nodes_up-kept (http req) w query = go req.body query
  where
    go : (body : Body) → HasNoJson body → granted_in body w ≡ w
    go empty query = refl
    go (form filename content) query = refl
    go (json v) query = absurd query
nodes_up-kept (race urls) w query = refl

nodes_up-apart :
    (w : Option String) (sealed file_hash did reader : String)
    → did ≢ reader
    → ledger (granted_to (some (str did)) (some (str sealed)) w) file_hash reader
      ≡ ledger w file_hash reader
nodes_up-apart w sealed file_hash did reader differ = elim (Bool-cases (str_eq reader "unknown")) [
  | inr other_reader ↦ rw other_reader refl
  | inl unknown ↦ elim (Bool-cases (str_eq did "unknown")) [
    | inr other_did ↦ rw (unknown, other_did) refl
    | inl same ↦
        absurd (
          differ
            ((str_eq_iff did "unknown").0 same ∙ sym ((str_eq_iff reader "unknown").0 unknown)))
  ]
]

abbrev parsed_in : Reply → Parsed
parsed_in (answered r) = r.parsed
parsed_in (refused e) = other null
parsed_in (settled ends) = other null

nodes_up-IsStrict : IsStrict nodes_up ledger
unfolding get_field
nodes_up-IsStrict = record {
  apart = λ w base file_hash did sealed public_key signature hash reader differ.
      nodes_up-apart w sealed hash did reader differ;
  untold = λ w base file_hash did r held is.
      (field "encrypted_symmetric_key" null end, sym (ap parsed_in is), refl);
  kept = λ c w file_hash did query. ap (λ w. ledger w file_hash did) (nodes_up-kept c w query);
}

private_grant_unread_example :
    (s' : NodeRouter) × (w' : Option String) × (upload_private_file nodes_up ethers ciphers codec
        (some "k")
        none
        none
        2
        (rotations 70 10)
        sym_key
        nonces
        (λ b. "")
        file
        (some "j")
        true
        end
        (new_router none)
        none
      ≡ (ok "m", s', w'))
    × ((download_private_file nodes_up ethers ciphers codec
          (some "j")
          none
          none
          (rotations 70 10)
          "m"
          (new_router none)
          w').0
        ≡ err (message "No access granted for did:feedo:0x2 to file m"))
unfolding chunks_of truthy encrypt_chunks
private_grant_unread_example =
    private_grant_unread nodes_up ethers ciphers codec ledger nodes_up-IsStrict address_of Stored
      nodes_up-Honest "k" "0x1" "j" "0x2" "j" none none nonces sym_key sym_key (λ b. "") true end 2
      70 (rotations 70 10) file (new_router none) (new_router none) none refl refl refl refl refl
      refl (inr (inr refl)) file-Stored (omega arith) refl

-- Of the texts, the nodes read one as an address, and that is no key.
abbrev IsAddress : String → Type 0
IsAddress public_key = str_eq public_key "0x1" ≡ true

-- They refuse every grant, though they answer it.
abbrev refusing : Env
refusing = record { World = Unit {0}; serve = λ c w. ((serve c none).0, tt); clock = λ w. 0 }

refusing-Honest : (c : Call) (w : Unit {0}) → Honest address_of Stored ⊥ c (refusing.serve c w).0
refusing-Honest c w = nodes_up-Honest c none

refusing-IsVerifying : IsVerifying refusing IsAddress (λ w file_hash did. none)
unfolding get_field
refusing-IsVerifying = record {
  strict = record {
    apart = λ w base file_hash did sealed public_key signature hash reader differ. refl;
    untold = λ w base file_hash did r held is.
        (field "encrypted_symmetric_key" null end, sym (ap parsed_in is), refl);
    kept = λ c w file_hash did query. refl;
  };
  refused = λ w base file_hash did sealed public_key signature hash reader no_address. refl;
}

private_upload_unread_example :
    (s' : NodeRouter) × (w' : Unit {0}) × (upload_private_file refusing ethers ciphers codec
        (some "k")
        none
        none
        2
        (rotations 70 10)
        sym_key
        nonces
        (λ b. "")
        file
        none
        false
        end
        (new_router none)
        tt
      ≡ (ok "m", s', w'))
    × ((download_private_file refusing ethers ciphers codec
          (some "k")
          none
          none
          (rotations 70 10)
          "m"
          (new_router none)
          w').0
        ≡ err (message "No access granted for did:feedo:0x1 to file m"))
unfolding chunks_of truthy encrypt_chunks
private_upload_unread_example =
    private_upload_unread refusing ethers ciphers codec IsAddress (λ w file_hash did. none)
      refusing-IsVerifying "k" "0x1" refl refl (λ e. cc) none none sym_key sym_key refl address_of
      Stored refusing-Honest nonces (λ b. "") end 2 70 (rotations 70 10) file (new_router none)
      (new_router none) tt (inr (inr refl)) file-Stored (omega arith) refl
