-- ===== src/View.antt =====
-- web/src/app/view/page.tsx: the page that brings a site into the browser's store, from which the
-- service worker of Sandbox serves it.
pub mod Overlay
pub mod Served
pub mod Ends
pub mod Panels
pub mod Tests
use feedo.Base.{
  ℕ, ◌+◌, String, ◌<>◌, List, [], ◌∷◌, Option, none, some, Bool, true, false, str_eq, if◌then◌else◌,
  ◌||◌, ◌&&◌, not, truthy, ◌++◌,
}
use feedo.Text.{to_string}
use feedo.Runtime.Wire.{Bytes}
use feedo.Sandbox.{Item, missing, found, broken}

-- The content of localforage.
abbrev pub Store : Type 0
Store = String → Option String

unfoldable pub set_item : Store → String → String → Store
set_item store key content j = if str_eq j key then some content else store j

-- What the page asks of the browser, the nodes and JSZip. A text is the message of what is thrown.
pub data Try (A : Type 0) : Type 0 where
  good : A → Try A
  thrown : String → Try A

-- An entry of an archive, under its name, with what unpacking it gives.
pub record ZipEntry : Type 0 where
  pub name : String
  pub dir : Bool
  pub content : Try String

pub record Host : Type 0 where
  pub has_service_worker : Bool
  pub register : Try (Unit {0})
  pub readable : Try (Unit {0})
  -- an answer that is ok, with its body, which may break off
  pub fetch_ok : String → Option (Try Bytes)
  pub load_zip : Bytes → Try (List ZipEntry)
  pub save : String → Try (Unit {0})

-- The state of the component.
pub record View : Type 0 where
  pub loading_msg : String
  pub is_ready : Bool
  pub error : Option String
  pub toast_msg : Option String

abbrev pub initial_view : View
initial_view = record {
  loading_msg = "Initializing Feedo Engine...";
  is_ready = false;
  error = none;
  toast_msg = none;
}

-- The listener for messages of the frame, and the end of its timer.
unfoldable pub handle_message : String → View → View
handle_message kind v =
    if str_eq kind "FEEDO_LINK_CLICKED"
    then record v {
      toast_msg = some "Navigation disabled: this is a static decentralized snapshot.";
    }
    else v

unfoldable pub toast_timeout : View → View
toast_timeout v = record v { toast_msg = none }

abbrev pub storage_nodes : List String
storage_nodes = "http://95.111.245.68:3001" ∷ "http://178.18.253.94:3001" ∷ []

-- The loop over the nodes: the first answer that is ok.
unfoldable pub first_ok : (String → Option (Try Bytes)) → String → List String → Option (Try Bytes)
first_ok fetch_ok cid [] = none
first_ok fetch_ok cid (node ∷ nodes) =
    let later = first_ok fetch_ok cid nodes in
    elim (fetch_ok (node <> "/download/" <> cid)) [ some body ↦ some body | none ↦ later ]

abbrev pub key_of : String → String → String
key_of cid filename = cid <> "/" <> filename

abbrev pub message : String → View → View
message text v = record v { loading_msg = text }

abbrev pub unpacked_files : ℕ → String
unpacked_files processed = "Unpacking... (" <> to_string processed <> " files)"

abbrev pub fail_with : String → Store → View → Store × View
fail_with text store v = (store, record v { error = some text })

-- The loop over the files of the archive. What is saved before a failure stays.
unfoldable pub save_all :
    (String → Try (Unit {0})) → String → List ZipEntry → ℕ → Store → View → Store × View
unfolding set_item
save_all save cid [] processed store v =
    (store, record v { loading_msg = "Decentralized site is ready."; is_ready = true })
save_all save cid (e ∷ es) processed store v =
    let skipped = save_all save cid es processed store v in
    let saved = λ (content : String).
      save_all save cid es (processed + 1) (set_item store (key_of cid e.name) content)
        (message (unpacked_files (processed + 1)) v) in
    elim e.dir [
      | true ↦ skipped
      | false ↦ elim e.content [
        | thrown text ↦ fail_with text store v
        | good content ↦ elim (save (key_of cid e.name)) [
          | thrown text ↦ fail_with text store v
          | good _ ↦ saved content
        ]
      ]
    ]

-- What follows the answer of a node.
unfoldable pub unpack : Host → String → Try Bytes → Store → View → Store × View
unfolding save_all
unpack host cid (thrown text) store v = fail_with text store v
unpack host cid (good buffer) store v =
    let unpacking = message "Unpacking and verifying cryptographic hashes..." v in
    elim (host.load_zip buffer) [
      | thrown text ↦ fail_with text store unpacking
      | good entries ↦ save_all host.save cid entries 0 store unpacking
    ]

-- The download, when the store does not hold the site.
unfoldable pub download_site : Host → String → Store → View → Store × View
unfolding first_ok unpack
download_site host cid store v = elim (first_ok host.fetch_ok cid storage_nodes) [
  | none ↦ fail_with "Failed to download CID from any storage node: Not Found" store v
  | some body ↦ unpack host cid body store (message "Downloading decentralized blob..." v)
]

-- The look into the store.
unfoldable pub look_up : Host → String → Store → View → Store × View
unfolding download_site
look_up host cid store v = elim host.readable [
  | thrown text ↦ fail_with text store v
  | good _ ↦ elim (store (key_of cid "index.html")) [
    | some content ↦
        (store, record v { loading_msg = "Found in local cache. Launching..."; is_ready = true })
    | none ↦ download_site host cid store (message "Connecting to Feedo P2P Storage Network..." v)
  ]
]

unfoldable pub init_sandbox : Host → String → Store → View → Store × View
unfolding look_up
init_sandbox host cid store v =
    let registering = message "Registering decentralized Service Worker..." v in
    elim host.has_service_worker [
      | false ↦ fail_with "Service Workers are not supported in this browser." store registering
      | true ↦ elim host.register [
        | thrown text ↦ fail_with text store registering
        | good _ ↦ look_up host cid store (message "Checking local node storage..." registering)
      ]
    ]

-- The effect, which waits for both parameters of the address.
unfoldable pub open_site : Host → Option String → Option String → Store → View → Store × View
unfolding init_sandbox
open_site host (some domain) (some cid) store v =
    if str_eq domain "" || str_eq cid "" then (store, v) else init_sandbox host cid store v
open_site host domain none store v = (store, v)
open_site host none (some cid) store v = (store, v)

-- What stands below the bar of the page.
pub data Panel : Type 0 where
  invalid : Panel
  loading : String → Panel
  failure : String → Panel
  -- the frame, with its address
  frame : String → Panel

abbrev pub has_error : View → Bool
has_error v = elim v.error [ none ↦ false | some text ↦ truthy text ]

abbrev frame_src : String → String
frame_src cid = "/sandbox/" <> cid <> "/index.html"

-- The three conditional parts of the viewer area.
unfoldable pub viewer_area : String → View → List Panel
unfolding truthy
viewer_area cid v =
    (if not v.is_ready && not (has_error v) then loading v.loading_msg ∷ [] else [])
    ++ (elim v.error [ none ↦ [] | some text ↦ if truthy text then failure text ∷ [] else [] ])
    ++ (if v.is_ready then frame (frame_src cid) ∷ [] else [])

-- The guard before it.
unfoldable pub view_content : Option String → Option String → View → List Panel
unfolding viewer_area
view_content (some domain) (some cid) v =
    if str_eq domain "" || str_eq cid "" then invalid ∷ [] else viewer_area cid v
view_content domain cid v = invalid ∷ []

-- What the service worker reads of the store.
abbrev pub item_of : Store → String → Item
item_of store key = elim (store key) [ none ↦ missing | some content ↦ found content ]
