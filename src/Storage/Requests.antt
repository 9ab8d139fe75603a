-- ===== src/Storage/Requests.antt =====
-- `request`, `uploadSingleChunk` and `downloadSingleChunk`: each is sent to the active storage
-- node, and once more, to a newly chosen one, if that fails.
use feedo.Base.{String, ◌<>◌, Option, if◌then◌else◌}
use feedo.Json.{Json}
use feedo.Text.{encode_uri_component}
use feedo.Runtime.Async.{done, fail, call, ◌>>=◌, ◌>>◌, try_catch}
use feedo.Runtime.Wire.{
  Bytes, Body, empty, form, json, Request, Parsed, http, Reply, answered, refused, settled, network,
  message, type_error, ok_status,
}
use feedo.Router.State.{NodeType, storage}
use feedo.Router.Discover.{Action, axios}
use feedo.Router.Select.{get_node, invalidate_node}
use feedo.Wallet.{Ethers, Headers, signed_headers}

-- The `catch` block that the modules share: forget the active node, choose again, send again.
unfoldable pub resend : {B : Type 0} → NodeType → (String → Action B) → Action B
unfolding get_node invalidate_node
resend t send = do invalidate_node t; base ← get_node t; send base

-- `try { send to base } catch { … }`
unfoldable pub send_twice : {B : Type 0} → NodeType → (String → Action B) → String → Action B
unfolding resend
send_twice t send base = try_catch (send base) (λ _. resend t send)

-- `fetch` throws only if no answer comes; the code throws the text of an answer that is not ok.
unfoldable pub fetch_reply : Reply → Action String
unfolding ok_status
fetch_reply (answered r) = if ok_status r.status then done r.text else fail (message r.text)
fetch_reply (refused e) = fail (network e)
fetch_reply (settled _) = fail type_error

unfoldable pub fetch_text : Request → Action String
unfolding fetch_reply
fetch_text req = call (http req) fetch_reply

-- The request of an upload, of a download, and of `request`.
abbrev pub upload_request : Headers → String → Bytes → String → Request
upload_request headers filename content base = record {
  method = "POST";
  url = base <> "/upload";
  headers = headers;
  body = form filename content;
}

abbrev pub download_path : String → String
download_path hash = "/download/" <> encode_uri_component hash

abbrev pub download_request : Headers → String → String → Request
download_request headers hash base = record {
  method = "GET";
  url = base <> download_path hash;
  headers = headers;
  body = empty;
}

module _ (ethers : Ethers) (private_key : Option String) where
  unfoldable pub request : String → String → Body → Action Parsed
  unfolding get_node signed_headers send_twice axios
  request method path content = do
    base ← get_node storage
    headers ← signed_headers ethers private_key method path
    let send = λ (b : String).
        axios (record { method = method; url = b <> path; headers = headers; body = content })
    resp ← send_twice storage send base
    done resp.parsed

  -- A Buffer or a Uint8Array becomes a Blob of the same bytes.
  unfoldable pub upload_single_chunk : Bytes → String → Action String
  unfolding get_node signed_headers send_twice fetch_text
  upload_single_chunk content filename = do
    base ← get_node storage
    headers ← signed_headers ethers private_key "POST" "/upload"
    send_twice storage (λ b. fetch_text (upload_request headers filename content b)) base

  unfoldable pub download_single_chunk : String → Action Bytes
  unfolding get_node signed_headers send_twice axios
  download_single_chunk hash = do
    base ← get_node storage
    headers ← signed_headers ethers private_key "GET" (download_path hash)
    resp ← send_twice storage (λ b. axios (download_request headers hash b)) base
    done resp.bytes

  unfoldable pub ingest_json : Json → Action Parsed
  unfolding request
  ingest_json payload = request "POST" "/api/v1/ingest/post" (json payload)

  unfoldable pub get_recent_files : Action Parsed
  unfolding request
  get_recent_files = request "GET" "/api/files/recent" empty
