-- ===== src/Consensus/Ledger.antt =====
-- The consensus node as the ledger of the grants of file access, which the SDK only calls.
use feedo.Base.{◌≡◌, refl, ap, ◌∙◌, String, ◌<>◌, [], Option, some, true}
use feedo.Json.{str, obj, end, field, Fields, get_field}
use feedo.Text.{encode_uri_component}
use feedo.Runtime.Wire.{
  Body, empty, json, Request, Response, Parsed, other, Call, http, Reply, answered, Error,
  ok_status,
}
use feedo.Runtime.Async.{done, ◌>>=◌, try_catch, Env, Outcome, ok, err, pending, run}
use feedo.Runtime.Bounds.{Contract, Ends, run-Ends}
use feedo.Runtime.Calls.{run-Calls}
use feedo.Runtime.Running.{continue_with, run-bind}
use feedo.Router.State.{NodeRouter, consensus}
use feedo.Router.Discover.{Action, axios, axios_reply}
use feedo.Router.Select.{get_node}
use feedo.Router.Bounded.{get_node-Within}
use feedo.Router.Queries.{IsQuery, get_node-Calls}
use feedo.Storage.Requests.{resend, send_twice}
use feedo.Consensus.{request, get_file_access}

abbrev pub to_node : String → String → Body → String → Request
to_node method path content base = record {
  method = method;
  url = base <> path;
  headers = [];
  body = content;
}

abbrev pub grant_body : String → String → String → String → String → Body
grant_body file_hash did sealed public_key signature = json (
    obj (
      field "file_hash" (str file_hash) (
        field "grantee_did" (str did) (
          field "encrypted_symmetric_key" (str sealed)
            (field "public_key" (str public_key) (field "signature" (str signature) end))))))

abbrev pub access_path : String → String → String
access_path file_hash did =
    "/grant/access/" <> encode_uri_component file_hash <> "/" <> encode_uri_component did

-- What a consensus node tells of its grants: the key, to whoever is granted it and asks, and a
-- request without JSON changes nothing.
pub record IsLedger (env : Env) (ledger : env.World → String → String → Option String)
    : Type 0 where
  pub told :
      (w : env.World) (base file_hash did sealed : String) (r : Response)
      → ledger w file_hash did ≡ some sealed
      → (env.serve (http (to_node "GET" (access_path file_hash did) empty base)) w).0 ≡ answered r
      → (fields : Fields) × (r.parsed ≡ other (obj fields))
        × (get_field "encrypted_symmetric_key" fields ≡ some (str sealed))
  pub kept :
      (c : Call) (w : env.World) (file_hash did : String)
      → IsQuery c
      → ledger (env.serve c w).1 file_hash did ≡ ledger w file_hash did

-- Every request gets an answer that is ok.
abbrev pub IsUp : Env → Type 0
IsUp env =
    (req : Request) (w : env.World)
    → (r : Response) × ((env.serve (http req) w).0 ≡ answered r) × (ok_status r.status ≡ true)

abbrev anything : Contract
anything c r = Unit

-- What is known of a call that has returned.
pub Ends-ok :
    {A : Type 0} (P : A → Type 0) (o : Outcome A) → Ends P (λ _. ⊥) ⊥ o → (a : A) × (o ≡ ok a) × P a
Ends-ok P (ok a) h = (a, refl, h)
Ends-ok P (err e) h = absurd h
Ends-ok P pending h = absurd h

module _ (env : Env) (up : IsUp env) where
  -- The choice of a node returns one, and keeps what questions keep.
  get_node-ok :
      (I : env.World → Type 0) (s : NodeRouter) (w : env.World)
      → ((c : Call) (w : env.World) → IsQuery c → I w → I (env.serve c w).1)
      → I w
      → (base : String) × (s' : NodeRouter) × (w' : env.World) × (run env (get_node consensus) s w
          ≡ (ok base, s', w'))
        × I w'
  get_node-ok I s w kept i =
      let r = run env (get_node consensus) s w in
      let (base, is, _) =
        Ends-ok (λ _. Unit {0}) r.0
          (run-Ends anything env (λ c w. tt) (λ _. Unit {0}) (λ _. ⊥) ⊥ 11 (get_node consensus) s w
            (get_node-Within anything (λ _. ⊥) consensus)) in
      (
        base,
        r.1,
        r.2,
        ap (λ o. (o, r.1, r.2)) is,
        run-Calls IsQuery env I kept (get_node consensus) s w (get_node-Calls consensus) i,
      )

  -- How a request goes on behind an answer that is ok.
  abbrev read_reply : (Error → Action Response) → Reply → Action Parsed
  read_reply handler reply = try_catch (axios_reply reply) handler >>= λ resp. done resp.parsed

  read_reply-ok :
      (handler : Error → Action Response) (s : NodeRouter) (w : env.World) (r : Response)
      → ok_status r.status ≡ true
      → run env (read_reply handler (answered r)) s w ≡ (ok r.parsed, s, w)
  unfolding axios_reply run
  read_reply-ok handler s w r good = rw good refl

  sent-ok :
      (method path : String) (content : Body) (base : String) (s : NodeRouter) (w : env.World)
      (r : Response)
      → (env.serve (http (to_node method path content base)) w).0 ≡ answered r
      → ok_status r.status ≡ true
      → run env
          (send_twice consensus (λ b. axios (to_node method path content b)) base >>= λ resp.
            done resp.parsed)
          s
          w
        ≡ (ok r.parsed, s, (env.serve (http (to_node method path content base)) w).1)
  unfolding send_twice axios run
  sent-ok method path content base s w r is good =
      ap
        (λ reply.
          run env
            (read_reply (λ _. resend consensus (λ b. axios (to_node method path content b))) reply)
            s (env.serve (http (to_node method path content base)) w).1)
        is
      ∙ read_reply-ok (λ _. resend consensus (λ b. axios (to_node method path content b))) s
          (env.serve (http (to_node method path content base)) w).1 r good

  -- A request is answered by the node that is chosen, in a world that questions have led to.
  pub request-ok :
      (method path : String) (content : Body) (I : env.World → Type 0) (s : NodeRouter)
      (w : env.World)
      → ((c : Call) (w : env.World) → IsQuery c → I w → I (env.serve c w).1)
      → I w
      → (base : String) × (s' : NodeRouter) × (w' : env.World) × (r : Response) × I w'
        × ((env.serve (http (to_node method path content base)) w').0 ≡ answered r)
        × (run env (request method path content) s w
            ≡ (ok r.parsed, s', (env.serve (http (to_node method path content base)) w').1))
  unfolding request
  request-ok method path content I s w kept i =
      let (base, s', w', chosen, i') = get_node-ok I s w kept i in
      let (r, is, good) = up (to_node method path content base) w' in
      let send = λ (b : String). axios (to_node method path content b) in
      let rest = λ (b : String). send_twice consensus send b >>= λ resp. done resp.parsed in
      (
        base,
        s',
        w',
        r,
        i',
        is,
        run-bind env (get_node consensus) rest s w
            ∙ ap (continue_with env rest) chosen
            ∙ sent-ok method path content base s' w' r is good,
      )

  module _ (ledger : env.World → String → String → Option String)
      (keeps : IsLedger env ledger) where
    -- `getFileAccess` returns what the ledger has.
    pub get_file_access-told :
        (file_hash did sealed : String) (s : NodeRouter) (w : env.World)
        → ledger w file_hash did ≡ some sealed
        → (fields : Fields) × (s' : NodeRouter) × (w' : env.World) × (run env
              (get_file_access file_hash did)
              s
              w
            ≡ (ok (other (obj fields)), s', w'))
          × (get_field "encrypted_symmetric_key" fields ≡ some (str sealed))
    unfolding get_file_access
    get_file_access-told file_hash did sealed s w held =
        let (base, s', w', r, still, is, runs) =
          request-ok "GET" (access_path file_hash did) empty
            (λ w. ledger w file_hash did ≡ some sealed) s w
            (λ c w query i. keeps.kept c w file_hash did query ∙ i) held in
        let after =
          (env.serve (http (to_node "GET" (access_path file_hash did) empty base)) w').1 in
        let (fields, parsed, has) = keeps.told w' base file_hash did sealed r still is in
        (fields, s', after, runs ∙ ap (λ p. (ok p, s', after)) parsed, has)
