-- ===== src/Sandbox.antt =====
-- web/public/feedo-sw.js: the service worker that answers requests below /sandbox/ from the files
-- that the browser keeps.
pub mod Paths
pub mod Tests
use feedo.Base.{
  ℕ, ◌+◌, ◌-◌, String, ◌<>◌, List, [], ◌∷◌, Option, none, some, Bool, true, false, ◌&&◌, ◌==◌, leb,
  drop, get_elem?, str_eq, truthy, if◌then◌else◌,
}
use text.Mathlib.Text.{starts_with}
use Prim.Native.Char.{code}
use Prim.Native.String.{[], ◌∷◌}

-- What `localforage.getItem` gives: `null`, a file as its text, or a failure. A file is an object,
-- so it is true also where it is empty.
pub data Item : Type 0 where
  missing : Item
  found : String → Item
  broken : Item

-- A `Response`, with the headers that the worker gives.
pub record Answer : Type 0 where
  pub status : ℕ
  pub headers : List (String × String)
  pub body : String

-- `s.split(sep)`, never empty: the first part and the others.
unfoldable pub split : ℕ → String → String × List String
split sep [] = ("", [])
split sep (c ∷ s) =
    let (part, parts) = split sep s in
    if code c == sep then ("", part ∷ parts) else (c ∷ part, parts)

-- `[part, ...parts].join('/')`
unfoldable pub join_parts : String → List String → String
join_parts part [] = part
join_parts part (next ∷ parts) = part <> "/" <> join_parts next parts

unfoldable pub join : List String → String
unfolding join_parts
join [] = ""
join (part ∷ parts) = join_parts part parts

unfoldable pub last_part : String → List String → String
last_part part [] = part
last_part part (next ∷ parts) = last_part next parts

-- `MIME_TYPES[ext] || 'application/octet-stream'` as a text: an object also has the members of its
-- prototype, two of which have names in lower case.
abbrev extension_type : List (String × String) → String → String
extension_type [] ext =
    if str_eq ext "constructor"
    then "function Object() { [native code] }"
    else if str_eq ext "__proto__"
    then "[object Object]"
    else "application/octet-stream"
extension_type ((name, kind) ∷ types) ext =
    let rest = extension_type types ext in if str_eq ext name then kind else rest

-- `MIME_TYPES`
abbrev pub mime_types : List (String × String)
mime_types =
    ("html", "text/html")
    ∷ ("css", "text/css")
    ∷ ("js", "application/javascript")
    ∷ ("json", "application/json")
    ∷ ("png", "image/png")
    ∷ ("jpg", "image/jpeg")
    ∷ ("jpeg", "image/jpeg")
    ∷ ("gif", "image/gif")
    ∷ ("svg", "image/svg+xml")
    ∷ ("ico", "image/x-icon")
    ∷ ("woff", "font/woff")
    ∷ ("woff2", "font/woff2")
    ∷ ("ttf", "font/ttf")
    ∷ ("eot", "application/vnd.ms-fontobject")
    ∷ ("otf", "font/otf")
    ∷ []

-- `toLowerCase` is the host's.
unfoldable pub get_mime_type : (String → String) → String → String
unfolding split last_part
get_mime_type to_lower_case filename =
    let (part, parts) = split b'.' filename in
    extension_type mime_types (to_lower_case (last_part part parts))

-- `s.endsWith('/')`
unfoldable pub ends_with_slash : String → Bool
ends_with_slash [] = false
ends_with_slash (c ∷ []) = code c == b'/'
ends_with_slash (c ∷ d ∷ s) = ends_with_slash (d ∷ s)

-- The file of a directory is its index.
unfoldable pub with_index : String → String
unfolding ends_with_slash
with_index filepath =
    if truthy filepath
    then if ends_with_slash filepath then filepath <> "index.html" else filepath
    else "index.html"

-- `${cid}/${filepath}`
unfoldable pub file_path : List String → String
unfolding with_index join
file_path parts = with_index (join (drop 3 parts))

abbrev cid_of : List String → String
cid_of parts = elim (get_elem? parts 2) [ some cid ↦ cid | none ↦ "undefined" ]

unfoldable pub sandbox_key : String → String
unfolding split file_path
sandbox_key pathname =
    let (part, parts) = split b'/' pathname in
    cid_of (part ∷ parts) <> "/" <> file_path (part ∷ parts)

-- The answer to a request below /sandbox/. `interceptor` is the script that is appended to pages.
unfoldable pub respond : (String → String) → String → (String → Item) → String → Answer
unfolding sandbox_key get_mime_type
respond to_lower_case interceptor get_item pathname =
    let (part, parts) = split b'/' pathname in
    let mime_type = get_mime_type to_lower_case (file_path (part ∷ parts)) in
    elim (get_item (sandbox_key pathname)) [
      | missing ↦ record {
        status = 404;
        headers = [];
        body = "File not found in Feedo network sandbox.";
      }
      | broken ↦ record { status = 500; headers = []; body = "Internal Server Error" }
      | found text ↦ record {
        status = 200;
        headers = ("Content-Type", mime_type) ∷ ("Cache-Control", "public, max-age=3600") ∷ [];
        body = if str_eq mime_type "text/html" then text <> interceptor else text;
      }
    ]

-- The listener for requests: `none` leaves a request to the browser. `url_pathname` is the `pathname`
-- that `new URL` reads in the address of the request: percent-encoded, and nothing decodes it.
unfoldable pub handle_fetch :
    (String → String) → (String → String) → String → (String → Item) → String → Option Answer
unfolding respond
handle_fetch url_pathname to_lower_case interceptor get_item url =
    let pathname = url_pathname url in
    if starts_with pathname "/sandbox/"
    then some (respond to_lower_case interceptor get_item pathname)
    else none
