-- ===== src/Consensus/Denied.antt =====
-- What the consensus node tells of a file that a DID was not granted.
use feedo.Base.{◌≡◌, ◌≢◌, ap, ◌∙◌, String, Option, none, some}
use feedo.Json.{null, obj, Fields, get_field}
use feedo.Runtime.Wire.{empty, Response, Parsed, other, Call, http, answered}
use feedo.Runtime.Async.{Env, ok, run}
use feedo.Router.State.{NodeRouter}
use feedo.Router.Queries.{IsQuery}
use feedo.Consensus.{grant_file_access, get_file_access}
use feedo.Consensus.Ledger.{to_node, grant_body, access_path, IsUp, request-ok}

-- A grant changes nothing of another DID, a DID without a grant is told null, and a request without
-- JSON changes nothing.
pub record IsStrict (env : Env) (ledger : env.World → String → String → Option String)
    : Type 0 where
  pub apart :
      (w : env.World) (base file_hash did sealed public_key signature other_hash other_did : String)
      → did ≢ other_did
      → ledger
          (env.serve
            (http (
              to_node "POST" "/grant/access"
                (grant_body file_hash did sealed public_key signature)
                base))
            w).1
          other_hash
          other_did
        ≡ ledger w other_hash other_did
  pub untold :
      (w : env.World) (base file_hash did : String) (r : Response)
      → ledger w file_hash did ≡ none
      → (env.serve (http (to_node "GET" (access_path file_hash did) empty base)) w).0 ≡ answered r
      → (fields : Fields) × (r.parsed ≡ other (obj fields))
        × (get_field "encrypted_symmetric_key" fields ≡ some null)
  pub kept :
      (c : Call) (w : env.World) (file_hash did : String)
      → IsQuery c
      → ledger (env.serve c w).1 file_hash did ≡ ledger w file_hash did

-- Besides, a grant changes nothing where the node cannot read its `public_key` as an address,
-- against which it checks the signature.
pub record IsVerifying (env : Env) (IsAddress : String → Type 0)
    (ledger : env.World → String → String → Option String) : Type 0 where
  pub strict : IsStrict env ledger
  pub refused :
      (w : env.World) (base file_hash did sealed public_key signature other_hash other_did : String)
      → ¬ IsAddress public_key
      → ledger
          (env.serve
            (http (
              to_node "POST" "/grant/access"
                (grant_body file_hash did sealed public_key signature)
                base))
            w).1
          other_hash
          other_did
        ≡ ledger w other_hash other_did

module _ (env : Env) (up : IsUp env) (ledger : env.World → String → String → Option String)
    (keeps : IsStrict env ledger) where
  -- Nor does the grant change what the ledger has of another DID.
  pub grant_file_access-apart :
      (file_hash did sealed public_key signature other_hash other_did : String)
      (held : Option String) (s : NodeRouter) (w : env.World)
      → did ≢ other_did
      → ledger w other_hash other_did ≡ held
      → (res : Parsed) × (s' : NodeRouter) × (w' : env.World) × (run env
            (grant_file_access file_hash did sealed public_key signature)
            s
            w
          ≡ (ok res, s', w'))
        × (ledger w' other_hash other_did ≡ held)
  unfolding grant_file_access
  grant_file_access-apart file_hash did sealed public_key signature other_hash other_did held s w
        differ was =
      let content = grant_body file_hash did sealed public_key signature in
      let (base, s', w', r, still, is, runs) =
        request-ok env up "POST" "/grant/access" content (λ w. ledger w other_hash other_did ≡ held)
          s w (λ c w query i. keeps.kept c w other_hash other_did query ∙ i) was in
      (
        r.parsed,
        s',
        (env.serve (http (to_node "POST" "/grant/access" content base)) w').1,
        runs,
        keeps.apart w' base file_hash did sealed public_key signature other_hash other_did differ
            ∙ still,
      )

  pub get_file_access-untold :
      (file_hash did : String) (s : NodeRouter) (w : env.World)
      → ledger w file_hash did ≡ none
      → (fields : Fields) × (s' : NodeRouter) × (w' : env.World) × (run env
            (get_file_access file_hash did)
            s
            w
          ≡ (ok (other (obj fields)), s', w'))
        × (get_field "encrypted_symmetric_key" fields ≡ some null)
  unfolding get_file_access
  get_file_access-untold file_hash did s w held =
      let (base, s', w', r, still, is, runs) =
        request-ok env up "GET" (access_path file_hash did) empty
          (λ w. ledger w file_hash did ≡ none) s w
          (λ c w query i. keeps.kept c w file_hash did query ∙ i) held in
      let after = (env.serve (http (to_node "GET" (access_path file_hash did) empty base)) w').1 in
      let (fields, parsed, has) = keeps.untold w' base file_hash did r still is in
      (fields, s', after, runs ∙ ap (λ p. (ok p, s', after)) parsed, has)

module _ (env : Env) (up : IsUp env) (IsAddress : String → Type 0)
    (ledger : env.World → String → String → Option String)
    (keeps : IsVerifying env IsAddress ledger) where
  -- A grant with a key that is no address returns, and has changed nothing.
  pub grant_file_access-refused :
      (file_hash did sealed public_key signature other_hash other_did : String)
      (held : Option String) (s : NodeRouter) (w : env.World)
      → ¬ IsAddress public_key
      → ledger w other_hash other_did ≡ held
      → (res : Parsed) × (s' : NodeRouter) × (w' : env.World) × (run env
            (grant_file_access file_hash did sealed public_key signature)
            s
            w
          ≡ (ok res, s', w'))
        × (ledger w' other_hash other_did ≡ held)
  unfolding grant_file_access
  grant_file_access-refused file_hash did sealed public_key signature other_hash other_did held s w
        no_address was =
      let content = grant_body file_hash did sealed public_key signature in
      let kept = keeps.strict.kept in
      let (base, s', w', r, still, is, runs) =
        request-ok env up "POST" "/grant/access" content (λ w. ledger w other_hash other_did ≡ held)
          s w (λ c w query i. kept c w other_hash other_did query ∙ i) was in
      (
        r.parsed,
        s',
        (env.serve (http (to_node "POST" "/grant/access" content base)) w').1,
        runs,
        keeps.refused w' base file_hash did sealed public_key signature other_hash other_did
              no_address
            ∙ still,
      )
