-- ===== src/Storage/Transfer.antt =====
-- What the transfer of a single chunk does over nodes that keep to the contract.
use feedo.Base.{String, ◌≡◌, refl, Option, some, inl, inr, Option-cases}
use feedo.Runtime.Wire.{Bytes, Response, http, Reply, answered, refused, settled, Error}
use feedo.Runtime.Async.{done, ◌>>=◌}
use feedo.Runtime.Bounds.{Contract, Within, Within-bind, Within-try_catch}
use feedo.Router.State.{NodeType, storage}
use feedo.Router.Discover.{Action, axios, axios_reply}
use feedo.Router.Select.{get_node, invalidate_node, chosen}
use feedo.Router.Bounded.{get_node-Within, invalidate_node-Within}
use feedo.Wallet.{Ethers, Headers, sign_with, signed_headers}
use feedo.Storage.Requests.{
  resend, send_twice, fetch_reply, fetch_text, upload_request, download_request, download_path,
  upload_single_chunk, download_single_chunk,
}
use feedo.Storage.Contract.{Honest}

-- The key, if there is one, is one that `ethers` accepts.
abbrev pub IsUsable : Ethers → Option String → Type 0
IsUsable ethers key =
    (k : String) → chosen key ≡ some k → (a : String) × (ethers.address k ≡ some a)

module _ (H : Contract) (Q : Error → Type 0) where
  pub send_twice-Within :
      {B : Type 0} (P : B → Type 0) (t : NodeType) (send : String → Action B) (base : String)
      → ((b : String) → Within H P Q 1 (send b))
      → Within H P Q 15 (send_twice t send base)
  unfolding send_twice
  send_twice-Within P t send base h =
      Within-try_catch H P Q Q 1 14 (send base) (λ _. resend t send) (h base)
        λ e _.
          Within-bind H (λ _. Unit {0}) P Q 2 12 (invalidate_node t) (λ _. get_node t >>= send)
            (invalidate_node-Within H Q t)
            λ _ _.
              Within-bind H (λ _. Unit {0}) P Q 11 1 (get_node t) send (get_node-Within H Q t)
                (λ b _. h b)

  pub signed_headers-Within :
      (ethers : Ethers) (key : Option String) (method path : String)
      → IsUsable ethers key
      → Within H (λ _. Unit {0}) Q 1 (signed_headers ethers key method path)
  unfolding signed_headers
  signed_headers-Within ethers key method path usable = elim (Option-cases (chosen key)) [
    | inl nobody ↦ rw (nobody, signed_headers) tt
    | inr (k, is) ↦
        let (a, known) = usable k is in rw (is, signed_headers, known, sign_with) (λ time. tt)
  ]

module _ (address_of : Bytes → String) (Stored : Bytes → Type 0) (Lossy : Type 0) where
  abbrev H : Contract
  H = Honest address_of Stored Lossy

  abbrev Q : Error → Type 0
  Q e = Lossy

  fetch_text-Within :
      (headers : Headers) (filename : String) (content : Bytes) (base : String)
      → Stored content
      → Within H
          (λ h. h ≡ address_of content)
          Q
          1
          (fetch_text (upload_request headers filename content base))
  unfolding fetch_text
  fetch_text-Within headers filename content base stored = λ reply honest. read reply honest
    where
      read :
          (reply : Reply)
          → H (http (upload_request headers filename content base)) reply
          → Within H (λ h. h ≡ address_of content) Q 0 (fetch_reply reply)
      read (answered r) (inl (bad, lossy)) = rw bad lossy
      read (answered r) (inr (good, keeps)) = rw good (keeps.uploaded filename content stored refl)
      read (refused e) lossy = lossy
      read (settled ends) lossy = lossy

  axios-Within :
      (headers : Headers) (content : Bytes) (base : String)
      → Stored content
      → Within H
          (λ (r : Response). r.bytes ≡ content)
          Q
          1
          (axios (download_request headers (address_of content) base))
  unfolding axios
  axios-Within headers content base stored = λ reply honest. read reply honest
    where
      read :
          (reply : Reply)
          → H (http (download_request headers (address_of content) base)) reply
          → Within H (λ (r : Response). r.bytes ≡ content) Q 0 (axios_reply reply)
      read (answered r) (inl (bad, lossy)) = rw bad lossy
      read (answered r) (inr (good, keeps)) =
          rw good (keeps.downloaded base content stored refl refl)
      read (refused e) lossy = lossy
      read (settled ends) lossy = lossy

  module _ (ethers : Ethers) (key : Option String) (usable : IsUsable ethers key) where
    -- If the key is usable and the network keeps to its contract, `uploadSingleChunk` of a content
    -- in question ends within 27 actions, whatever other tasks do to the router in between: it
    -- returns the content's address, or throws, which it does only if nodes may fail.
    pub upload_single_chunk-Within :
        (content : Bytes) (filename : String)
        → Stored content
        → Within H
            (λ h. h ≡ address_of content)
            Q
            27
            (upload_single_chunk ethers key content filename)
    unfolding upload_single_chunk
    upload_single_chunk-Within content filename stored =
        let send = λ (headers : Headers) (b : String).
          fetch_text (upload_request headers filename content b) in
        Within-bind H (λ _. Unit {0}) (λ h. h ≡ address_of content) Q 11 16 (get_node storage)
          (λ base. signed_headers ethers key "POST" "/upload" >>= λ headers.
            send_twice storage (send headers) base)
          (get_node-Within H Q storage)
          λ base _.
            Within-bind H (λ _. Unit {0}) (λ h. h ≡ address_of content) Q 1 15
              (signed_headers ethers key "POST" "/upload")
              (λ headers. send_twice storage (send headers) base)
              (signed_headers-Within H Q ethers key "POST" "/upload" usable)
              λ headers _.
                send_twice-Within H Q (λ h. h ≡ address_of content) storage (send headers) base
                  (λ b. fetch_text-Within headers filename content b stored)

    -- If the key is usable and the network keeps to its contract, `downloadSingleChunk` of the
    -- address of a content in question ends within 27 actions, whatever other tasks do to the
    -- router in between: it returns the content, or throws, which it does only if nodes may fail.
    pub download_single_chunk-Within :
        (content : Bytes)
        → Stored content
        → Within H (λ b. b ≡ content) Q 27 (download_single_chunk ethers key (address_of content))
    unfolding download_single_chunk
    download_single_chunk-Within content stored =
        let path = download_path (address_of content) in
        let send = λ (headers : Headers) (b : String).
          axios (download_request headers (address_of content) b) in
        Within-bind H (λ _. Unit {0}) (λ b. b ≡ content) Q 11 16 (get_node storage)
          (λ base. signed_headers ethers key "GET" path >>= λ headers.
            send_twice storage (send headers) base >>= λ resp. done resp.bytes)
          (get_node-Within H Q storage)
          λ base _.
            Within-bind H (λ _. Unit {0}) (λ b. b ≡ content) Q 1 15
              (signed_headers ethers key "GET" path)
              (λ headers. send_twice storage (send headers) base >>= λ resp. done resp.bytes)
              (signed_headers-Within H Q ethers key "GET" path usable)
              λ headers _.
                Within-bind H (λ (r : Response). r.bytes ≡ content) (λ b. b ≡ content) Q 15 0
                  (send_twice storage (send headers) base) (λ resp. done resp.bytes)
                  (send_twice-Within H Q (λ (r : Response). r.bytes ≡ content) storage
                    (send headers) base (λ b. axios-Within headers content b stored))
                  (λ resp same. same)
