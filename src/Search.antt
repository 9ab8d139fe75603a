-- ===== src/Search.antt =====
-- sdk/typescript/src/modules/search.ts: `class SearchModule`, requests to a search node that are
-- signed by the usage key in the owner's name, or else by the private key.
pub mod Keys
pub mod Tests
use feedo.Base.{ℕ, String, ◌<>◌, List, [], Option, none, some, Bool, true, false, if◌then◌else◌}
use feedo.Json.{Json, bool, num, str, obj, Fields, end, field, get_field, is_true}
use feedo.Text.{to_string, encode_uri_component, before_query}
use feedo.Runtime.Async.{done, fail, ◌>>=◌}
use feedo.Runtime.Wire.{Body, empty, json, Request, Parsed, message, invalid_key}
use feedo.Router.State.{search}
use feedo.Router.Discover.{Action, axios}
use feedo.Router.Select.{get_node, chosen}
use feedo.Wallet.{Ethers, Headers, did_of, sign_as, signed_headers}
use feedo.Storage.Requests.{send_twice}

-- `if (v) data[name] = v`
abbrev if_set : String → Option String → Fields → Fields
if_set name v rest = elim (chosen v) [ none ↦ rest | some s ↦ field name (str s) rest ]

-- `v || ""`
abbrev or_empty : Option String → String
or_empty v = elim (chosen v) [ none ↦ "" | some s ↦ s ]

abbrev bool_text : Bool → String
bool_text true = "true"
bool_text false = "false"

-- `if (v) qs += …`
abbrev pub parameter : String → Option String → String
parameter name v = elim (chosen v) [
  | none ↦ ""
  | some s ↦ "&" <> name <> "=" <> encode_uri_component s
]

module _ (ethers : Ethers) (private_key usage_key did : Option String) where
  unfoldable pub my_did : Action String
  my_did = elim (chosen did) [
    | some d ↦ done d
    | none ↦ elim private_key [
      | none ↦ fail invalid_key
      | some key ↦ elim (ethers.address key) [
        | none ↦ fail invalid_key
        | some address ↦ done (did_of address)
      ]
    ]
  ]

  -- The `headers` of a request, for the path without its query string.
  unfoldable pub delegated : String → String → String → String → Action Headers
  unfolding sign_as
  delegated usage owner method path = elim (ethers.address usage) [
    | none ↦ fail invalid_key
    | some address ↦ sign_as ethers usage owner method (before_query path)
  ]

  unfoldable pub request_headers : String → String → Action Headers
  unfolding delegated signed_headers before_query
  request_headers method path = elim (chosen usage_key) [
    | none ↦ signed_headers ethers private_key method (before_query path)
    | some usage ↦ elim (chosen did) [
      | none ↦ signed_headers ethers private_key method (before_query path)
      | some owner ↦ delegated usage owner method path
    ]
  ]

  unfoldable pub request : String → String → Body → Action Parsed
  unfolding get_node request_headers send_twice axios
  request method path content = do
    base ← get_node search
    headers ← request_headers method path
    let send = λ (b : String).
        axios (record { method = method; url = b <> path; headers = headers; body = content })
    resp ← send_twice search send base
    done resp.parsed

  unfoldable pub run_search :
      String
      → ℕ
      → Bool
      → String
      → ℕ
      → Option String
      → String
      → Option String
      → Option String
      → Action Parsed
  unfolding request
  run_search query limit federated item_type offset app_id search_type image_url namespace =
      request "POST" "/query" (
        json (
          obj (
            field "text" (str query) (
              field "limit" (num limit) (
                field "federated" (bool federated) (
                  field "item_type" (str item_type) (
                    field "offset" (num offset) (
                      field "search_type" (str search_type) (
                        if_set "app_id" app_id
                          (if_set "image_url" image_url (if_set "namespace" namespace end)))))))))))

  abbrev pub documents_path : ℕ → ℕ → String → Option String → Option String → String
  documents_path limit offset item_type app_id namespace =
      "/documents?"
      <> ("limit="
          <> to_string limit
          <> "&offset="
          <> to_string offset
          <> "&item_type="
          <> item_type
          <> parameter "app_id" app_id
          <> parameter "namespace" namespace)

  unfoldable pub get_documents : ℕ → ℕ → String → Option String → Option String → Action Parsed
  unfolding request
  get_documents limit offset item_type app_id namespace =
      request "GET" (documents_path limit offset item_type app_id namespace) empty

  -- `!this.privateKey && !this.usageKey`
  abbrev pub has_no_key : Bool
  has_no_key = elim (chosen private_key) [
    | some key ↦ false
    | none ↦ elim (chosen usage_key) [ some key ↦ false | none ↦ true ]
  ]

  unfoldable pub index_private_document : String → String → Fields → Option String → Action Parsed
  unfolding my_did request
  index_private_document hash_id plaintext metadata namespace =
      if has_no_key
      then fail (message "Private key or usage key required to index private documents")
      else my_did >>= λ author. request "POST" "/index_document" (
          json (
            obj (
              field "hash_id" (str hash_id) (
                field "text" (str plaintext) (
                  field "item_type" (str "private_post") (
                    field "author" (str author) (
                      field "metadata" (obj metadata)
                        (field "namespace" (str (or_empty namespace)) end))))))))

  -- The body of `/index_image`; JSON leaves out a key that is not given.
  abbrev pub image_body : String → String → String → Fields → Option String → Option String → Json
  image_body hash_id item_type author metadata symmetric_key namespace = obj (
      field "hash_id" (str hash_id) (
        field "item_type" (str item_type)
          (field "author" (str author) (field "metadata" (obj metadata) (with_key symmetric_key)))))
    where
      rest : Fields
      rest = field "namespace" (str (or_empty namespace)) end

      with_key : Option String → Fields
      with_key none = rest
      with_key (some k) = field "symmetric_key" (str k) rest

  unfoldable pub index_image : String → Fields → Option String → Option String → Action Parsed
  unfolding my_did request
  index_image hash_id metadata symmetric_key namespace = elim (chosen symmetric_key) [
    | none ↦
        request "POST" "/index_image"
          (json (image_body hash_id "image" "" metadata symmetric_key namespace))
    | some key ↦
        if has_no_key
        then fail (message "Private key or usage key required to index private images")
        else my_did >>= λ author.
            request "POST" "/index_image"
              (json (image_body hash_id "private_image" author metadata symmetric_key namespace))
  ]

  -- `metadata.type || "document"`
  abbrev item_type_of : Fields → Json
  item_type_of metadata = elim (get_field "type" metadata) [
    | none ↦ str "document"
    | some v ↦ if is_true v then v else str "document"
  ]

  -- `random` is `Math.random().toString(36).substring(7)`.
  unfoldable pub index_document :
      String → String → Fields → Option String → Option String → Action Parsed
  unfolding request
  index_document random content metadata namespace hash_id = request "POST" "/index_document" (
      json (
        obj (
          field "text" (str content) (
            field "metadata" (obj metadata) (
              field "hash_id" (str (elim (chosen hash_id) [ some h ↦ h | none ↦ "doc_" <> random ]))
                (field "item_type" (item_type_of metadata)
                  (field "namespace" (str (or_empty namespace)) end)))))))

  unfoldable pub count_by_namespace : String → Bool → Action Parsed
  unfolding request
  count_by_namespace namespace federated =
      request "GET"
        ("/count?namespace="
          <> encode_uri_component namespace
          <> "&federated="
          <> bool_text federated)
        empty

  unfoldable pub delete_by_namespace : String → Action Parsed
  unfolding request
  delete_by_namespace namespace =
      request "DELETE" ("/namespace/" <> encode_uri_component namespace) empty

  unfoldable pub deploy_proxy : String → String → Action Parsed
  unfolding request
  deploy_proxy directory_path domain =
      request "POST" "/proxy/publish_feedo"
        (json (obj (field "source_dir" (str directory_path) (field "domain" (str domain) end))))

  unfoldable pub unpin : String → Action Parsed
  unfolding request
  unpin cid = request "DELETE" ("/proxy/unpin_feedo/" <> cid) empty

  unfoldable pub get_stats : Action Parsed
  unfolding request
  get_stats = request "GET" "/explorer/stats" empty
