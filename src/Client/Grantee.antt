-- ===== src/Client/Grantee.antt =====
-- A private file that is uploaded for another grantee: the key is granted to the DID "unknown".
pub mod Unread
pub mod Owner
mod Tests
use feedo.Base.{
  inr, ℕ, ◌+◌, ◌*◌, ◌≤◌, ◌≡◌, ◌≢◌, refl, sym, subst, ap, ◌∙◌, String, ◌<>◌, List, Option, none,
  some, true, false, Bool, truthy, length, All, str_eq, str_eq_iff, Bool-cases, inl, ◌&&◌, ◌==◌,
  if◌then◌else◌,
}
use Prim.Native.Char.{code}
use Prim.Native.String.{[], ◌∷◌}
use text.Mathlib.TextLemmas.{cons-append}
use feedo.Json.{Json, null, Codec, Fields, obj, get_field, is_true}
use feedo.Runtime.Wire.{Bytes, Call, Parsed, other, message}
use feedo.Runtime.Async.{Env, Outcome, ok, err, run}
use feedo.Runtime.Pool.Kept.{run_pool-Kept}
use feedo.Runtime.Pool.Rotation.{rotations}
use feedo.Runtime.Calls.{run-Calls}
use feedo.Runtime.Session.{and_then, and_then_of_ok, and_then-keeps, give}
use feedo.Router.State.{NodeRouter}
use feedo.Router.Select.{chosen}
use feedo.Router.Queries.{IsQuery}
use feedo.Wallet.{Ethers, did_of}
use feedo.Text.{without_0x}
use feedo.Crypto.{Ciphers, encrypt_symmetric_key_ecies}
use feedo.Storage.Contract.{Honest}
use feedo.Storage.Calls.{upload_single_chunk-Calls}
use feedo.Storage.Files.{
  worker_limit, manifest, transfer_all, upload_chunk, upload_manifest, chunk_at,
}
use feedo.Consensus.{grant_file_access, get_file_access}
use feedo.Consensus.Ledger.{IsUp}
use feedo.Consensus.Denied.{IsStrict, grant_file_access-apart, get_file_access-untold}
use feedo.Client.{
  granted_key, upload_encrypted, upload_private_file, grant_upload, share_upload,
  download_private_file, read_access, or_throw, index_upload,
}
use feedo.Client.Upload.{
  sealed_chunks, private_form, IsUsable-key, chosen-some, upload_encrypted-ok,
}
use feedo.Client.RoundTrip.{honest-IsUp}

-- A DID starts with another letter.
unfoldable starts_with_d : String → Bool
starts_with_d [] = false
starts_with_d (c ∷ s) = code c == b'd'

and_false : (b : Bool) → (b && false) ≡ false
and_false true = refl
and_false false = refl

starts_with_d-append : (a b : String) → starts_with_d a ≡ true → starts_with_d (a <> b) ≡ true
unfolding starts_with_d
starts_with_d-append [] b h = cc
starts_with_d-append (c ∷ a) b h = rw (cons-append) h

unknown_did : (address : String) → "unknown" ≢ did_of address
unfolding starts_with_d
unknown_did address e =
    let h : false ≡ true = ap starts_with_d e ∙ starts_with_d-append "did:feedo:" address refl in cc

pub granted_key-null :
    (denied : String) (fields : Fields)
    → get_field "encrypted_symmetric_key" fields ≡ some null
    → granted_key denied (other (obj fields)) ≡ inl (message denied)
unfolding granted_key is_true
granted_key-null denied fields has = rw (granted_key, has) refl

unknown_other : (address : String) → str_eq "unknown" (did_of address) ≡ false
unknown_other address = elim (Bool-cases (str_eq "unknown" (did_of address))) [
  | inl same ↦ absurd (unknown_did address ((str_eq_iff "unknown" (did_of address)).0 same))
  | inr differ ↦ differ
]

module _ (env : Env) (ethers : Ethers) (ciphers : Ciphers) (codec : Codec)
    (ledger : env.World → String → String → Option String) (keeps : IsStrict env ledger) where
  -- The upload of the chunks and the manifest leaves the ledger as it is.
  pub upload_encrypted-kept :
      (key usage_key did : Option String) (c : ℕ) (schedule : List ℕ) (content : Bytes)
      (chunks : List Bytes) (hash_id reader : String) (held : Option String) (s : NodeRouter)
      (w : env.World)
      → ledger w hash_id reader ≡ held
      → ledger
          (upload_encrypted env ethers ciphers codec key usage_key did c schedule content chunks s
            w).2
          hash_id
          reader
        ≡ held
  upload_encrypted-kept key usage_key did c schedule content chunks hash_id reader held s w was =
      let I = λ (w : env.World). ledger w hash_id reader ≡ held in
      let kept = λ (c : Call) (w : env.World) (query : IsQuery c) (i : I w).
        keeps.kept c w hash_id reader query ∙ i in
      and_then-keeps env NodeRouter I
        (transfer_all env ethers key codec
          (upload_chunk env ethers key codec "encrypted_part" chunks) (length chunks) schedule)
        (λ hashes.
          upload_manifest env ethers key codec
            (manifest "feedo_encrypted_manifest" "encrypted_file.bin" (length content) c hashes))
        s w
        (run_pool-Kept IsQuery env I kept
          (upload_chunk env ethers key codec "encrypted_part" chunks) (length chunks)
          (λ k. upload_single_chunk-Calls ethers key (chunk_at chunks k) _) worker_limit schedule s
          w was)
        (λ hashes s' w' i.
          run-Calls IsQuery env I kept _ s' w'
            (upload_single_chunk-Calls ethers key
              (codec.stringify (
                manifest "feedo_encrypted_manifest" "encrypted_file.bin" (length content) c hashes))
              "manifest.json")
            i)

  module _ (up : IsUp env) (k address g : String) (set : truthy k ≡ true)
      (known : ethers.address k ≡ some address) (named : truthy g ≡ true) (sym_key e : Bytes)
      (encrypts : ciphers.ecies_encrypt (without_0x g) sym_key ≡ some e)
      (usage_key did : Option String) (reader : String) where
    -- `grant_upload` for a key and a DID.
    abbrev granting :
        String → String → String → NodeRouter → env.World → Outcome Parsed × NodeRouter × env.World
    granting own target hash_id =
        and_then env NodeRouter
          (or_throw env ethers ciphers codec (some k) usage_key did
            (encrypt_symmetric_key_ecies ciphers own sym_key))
          λ sealed. run env (
            grant_file_access hash_id target sealed (ethers.public_key k)
              (ethers.sign k (hash_id <> target <> sealed)))

    grant_upload-apart :
        (hash_id : String) (s : NodeRouter) (w : env.World)
        → ledger w hash_id (did_of reader) ≡ none
        → (res : Parsed) × (s' : NodeRouter) × (w' : env.World) × (grant_upload env ethers ciphers
              codec
              (some k)
              usage_key
              did
              sym_key
              (some g)
              k
              (did_of address)
              hash_id
              s
              w
            ≡ (ok res, s', w'))
          × (ledger w' hash_id (did_of reader) ≡ none)
    unfolding grant_upload encrypt_symmetric_key_ecies
    grant_upload-apart hash_id s w absent =
        let sealed = ciphers.to_hex e in
        let (res, s', w', granted, still) =
          grant_file_access-apart env up ledger keeps hash_id "unknown" sealed (ethers.public_key k)
            (ethers.sign k (hash_id <> "unknown" <> sealed)) hash_id (did_of reader) none s w
            (unknown_did reader) absent in
        (
          res,
          s',
          w',
          ap
                (λ o.
                  granting (elim o [ none ↦ ethers.public_key k | some own ↦ own ])
                    (elim o [ none ↦ did_of address | some own ↦ "unknown" ]) hash_id s w)
                (chosen-some g named)
              ∙ rw (encrypt_symmetric_key_ecies, encrypts) granted,
          still,
        )

    -- What follows the grant, for the test whether the file is indexed.
    abbrev continuing :
        (Bytes → String)
        → Bytes
        → Fields
        → String
        → Bool
        → NodeRouter
        → env.World
        → Outcome String × NodeRouter × env.World
    continuing text_decoder content metadata hash_id indexed =
        and_then env NodeRouter
          (if indexed
            then index_upload env ethers ciphers codec (some k) usage_key did content sym_key
                metadata text_decoder hash_id
            else give env NodeRouter tt)
          λ _. give env NodeRouter hash_id

    pub share_upload-apart :
        (text_decoder : Bytes → String) (content : Bytes) (index : Bool) (metadata : Fields)
        (hash_id : String) (s : NodeRouter) (w : env.World)
        → ledger w hash_id (did_of reader) ≡ none
        → (s' : NodeRouter) × (w' : env.World) × (share_upload env ethers ciphers codec
              (some k)
              usage_key
              did
              sym_key
              text_decoder
              content
              (some g)
              index
              metadata
              k
              (did_of address)
              hash_id
              s
              w
            ≡ (ok hash_id, s', w'))
          × (ledger w' hash_id (did_of reader) ≡ none)
    unfolding share_upload
    share_upload-apart text_decoder content index metadata hash_id s w absent =
        let (res, s', w', granted, still) = grant_upload-apart hash_id s w absent in
        let go = continuing text_decoder content metadata hash_id in
        let mine = λ (o : Option String).
          str_eq (elim o [ none ↦ did_of address | some own ↦ "unknown" ]) (did_of address) in
        (
          s',
          w',
          and_then_of_ok env NodeRouter
                (grant_upload env ethers ciphers codec (some k) usage_key did sym_key (some g) k
                  (did_of address) hash_id)
                (λ _. go (index && mine (chosen (some g)))) s w granted
              ∙ ap (λ o. go (index && mine o) s' w') (chosen-some g named)
              ∙ ap (λ b. go (index && b) s' w') (unknown_other address)
              ∙ ap (λ b. go b s' w') (and_false index),
          still,
        )
