-- ===== src/Storage/Calls.antt =====
-- What the calls of an upload carry.
use feedo.Base.{String, Option, inl, inr, Bool-cases, Option-cases}
use feedo.Runtime.Wire.{Bytes, Reply, answered, refused, settled, ok_status}
use feedo.Runtime.Async.{◌>>=◌}
use feedo.Runtime.Calls.{Calls, Calls-bind, Calls-try_catch}
use feedo.Router.State.{NodeType, storage}
use feedo.Router.Discover.{Action}
use feedo.Router.Select.{get_node, invalidate_node, chosen}
use feedo.Router.Queries.{IsQuery, get_node-Calls}
use feedo.Wallet.{Ethers, Headers, sign_as, sign_with, signed_headers}
use feedo.Storage.Requests.{
  resend, send_twice, fetch_reply, fetch_text, upload_request, upload_single_chunk,
}

abbrev Asks : {A : Type 0} → Action A → Type 0
Asks = Calls IsQuery

send_twice-Asks :
    {B : Type 0} (t : NodeType) (send : String → Action B) (base : String)
    → ((b : String) → Asks (send b))
    → Asks (send_twice t send base)
unfolding send_twice resend invalidate_node
send_twice-Asks t send base h =
    Calls-try_catch IsQuery (send base) (λ _. resend t send) (h base)
      (λ e r. Calls-bind IsQuery (get_node t) send (get_node-Calls t) h)

fetch_reply-Asks : (reply : Reply) → Asks (fetch_reply reply)
unfolding fetch_reply
fetch_reply-Asks (answered r) = elim (Bool-cases (ok_status r.status)) [
  | inl fine ↦ rw fine tt
  | inr bad ↦ rw bad tt
]
fetch_reply-Asks (refused e) = tt
fetch_reply-Asks (settled ends) = tt

module _ (ethers : Ethers) where
  sign_with-Asks : (key method path : String) → Asks (sign_with ethers key method path)
  unfolding sign_with sign_as
  sign_with-Asks key method path = elim (Option-cases (ethers.address key)) [
    | inl invalid ↦ rw (invalid, sign_with) tt
    | inr (address, known) ↦ rw (known, sign_with) (λ t. tt)
  ]

  signed_headers-Asks :
      (key : Option String) (method path : String) → Asks (signed_headers ethers key method path)
  unfolding signed_headers
  signed_headers-Asks key method path = elim (Option-cases (chosen key)) [
    | inl unset ↦ rw (unset, signed_headers) tt
    | inr (k, is) ↦ rw (is, signed_headers) (sign_with-Asks k method path)
  ]

  pub upload_single_chunk-Calls :
      (key : Option String) (content : Bytes) (filename : String)
      → Calls IsQuery (upload_single_chunk ethers key content filename)
  unfolding upload_single_chunk fetch_text
  upload_single_chunk-Calls key content filename =
      let rest = λ (base : String) (headers : Headers).
        send_twice storage (λ b. fetch_text (upload_request headers filename content b)) base in
      let headers = signed_headers ethers key "POST" "/upload" in
      Calls-bind IsQuery (get_node storage) (λ base. headers >>= rest base) (get_node-Calls storage)
        (λ base.
          Calls-bind IsQuery headers (rest base) (signed_headers-Asks key "POST" "/upload") (λ h.
            send_twice-Asks storage (λ b. fetch_text (upload_request h filename content b)) base
              (λ b. (tt, fetch_reply-Asks))))
