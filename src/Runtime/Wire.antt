-- ===== src/Runtime/Wire.antt =====
-- What travels between the SDK and the nodes (axios and fetch requests and their answers).
use feedo.Json.{Json}
use feedo.Base.{ℕ, String, List, Bool, ◌&&◌, leb, ltb}

-- A buffer, `ArrayBuffer` or `Blob`, byte by byte.
abbrev pub Bytes : Type 0
Bytes = List ℕ

-- An entry of `RouterNodeResponse.nodes`. An absent field is the empty text: the code asks only
-- for its truth value.
pub record RouterNode : Type 0 where
  pub kind : String
  pub public_domain : String
  pub internal_http : String

-- A request body.
pub data Body : Type 0 where
  empty : Body
  -- FormData with the one field `file`
  form : String → Bytes → Body
  -- an object that axios serialises
  json : Json → Body

pub record Request : Type 0 where
  pub method : String
  pub url : String
  pub headers : List (String × String)
  pub body : Body

-- What axios parses of an answer as `data`: a `RouterNodeResponse`, or anything else.
pub data Parsed : Type 0 where
  nodes : List RouterNode → Parsed
  other : Json → Parsed

-- An answer: its status, and its body as `data`, `text()` and `arraybuffer` give it.
pub record Response : Type 0 where
  pub status : ℕ
  pub parsed : Parsed
  pub text : String
  pub bytes : Bytes

-- What an `await` waits for. `race` is a group of simultaneous GETs.
pub data Call : Type 0 where
  http : Request → Call
  race : List String → Call

-- `refused` is a network error or a timeout. `settled` lists the requests of a race by number in
-- the order in which they end, with whether each succeeded.
pub data Reply : Type 0 where
  answered : Response → Reply
  refused : String → Reply
  settled : List (ℕ × Bool) → Reply

-- What a `throw` carries.
pub data Error : Type 0 where
  network : String → Error
  bad_status : ℕ → Error
  -- `new Error(text)`
  message : String → Error
  type_error : Error
  invalid_key : Error

-- `response.ok`, and axios's default `validateStatus`.
unfoldable pub ok_status : ℕ → Bool
ok_status s = leb 200 s && ltb s 300
