-- ===== src/Consensus.antt =====
-- sdk/typescript/src/modules/consensus.ts: `class ConsensusModule`, unsigned requests to a consensus
-- node.
pub mod Ledger
pub mod Denied
use feedo.Base.{String, ◌<>◌, List, [], none, some}
use feedo.Json.{Json, str, obj, end, field}
use feedo.Text.{encode_uri_component}
use feedo.Runtime.Async.{done, ◌>>=◌}
use feedo.Runtime.Wire.{Body, empty, json, Request, Parsed}
use feedo.Router.State.{consensus}
use feedo.Router.Discover.{Action, axios}
use feedo.Router.Select.{get_node}
use feedo.Wallet.{Ethers, did_of}
use feedo.Storage.Requests.{send_twice}

unfoldable pub request : String → String → Body → Action Parsed
unfolding get_node send_twice axios
request method path content = do
  base ← get_node consensus
  let send = λ (b : String).
      axios (record { method = method; url = b <> path; headers = []; body = content })
  resp ← send_twice consensus send base
  done resp.parsed

unfoldable pub resolve_name : String → Action Parsed
unfolding request
resolve_name name = request "GET" ("/resolve/" <> encode_uri_component name) empty

unfoldable pub resolve_cid : String → Action Parsed
unfolding request
resolve_cid cid = request "GET" ("/resolve_cid/" <> encode_uri_component cid) empty

unfoldable pub get_did_balance : String → Action Parsed
unfolding request
get_did_balance did = request "GET" ("/did/" <> encode_uri_component did <> "/balance") empty

-- `ethers.computeAddress`, or the text itself where it throws.
unfoldable pub address_of_public_key : Ethers → String → String
address_of_public_key ethers public_key_hex = elim (ethers.compute_address public_key_hex) [
  | some address ↦ address
  | none ↦ public_key_hex
]

unfoldable pub register_did : Ethers → String → String → Action Parsed
unfolding request address_of_public_key
register_did ethers public_key_hex signature =
    let address = address_of_public_key ethers public_key_hex in
    request "POST" "/did/register" (
      json (
        obj (
          field "did" (str (did_of address))
            (field "public_key" (str address) (field "signature" (str signature) end)))))

unfoldable pub register_name : String → String → String → String → Action Parsed
unfolding request
register_name name did cid signature_hex = request "POST" "/name/register" (
    json (
      obj (
        field "name" (str name) (
          field "did" (str did)
            (field "cid" (str cid) (field "signature_hex" (str signature_hex) end))))))

unfoldable pub update_name_cid : String → String → String → Action Parsed
unfolding request
update_name_cid name new_cid signature_hex = request "POST" "/name/update_cid" (
    json (
      obj (
        field "name" (str name)
          (field "new_cid" (str new_cid) (field "signature_hex" (str signature_hex) end)))))

unfoldable pub list_grants : Action Parsed
unfolding request
list_grants = request "GET" "/grants" empty

unfoldable pub grant_file_access : String → String → String → String → String → Action Parsed
unfolding request
grant_file_access file_hash grantee_did encrypted_symmetric_key public_key signature_hex =
    request "POST" "/grant/access" (
      json (
        obj (
          field "file_hash" (str file_hash) (
            field "grantee_did" (str grantee_did) (
              field "encrypted_symmetric_key" (str encrypted_symmetric_key) (
                field "public_key" (str public_key)
                  (field "signature" (str signature_hex) end)))))))

unfoldable pub get_file_access : String → String → Action Parsed
unfolding request
get_file_access file_hash grantee_did =
    request "GET"
      ("/grant/access/"
        <> encode_uri_component file_hash
        <> "/"
        <> encode_uri_component grantee_did)
      empty
