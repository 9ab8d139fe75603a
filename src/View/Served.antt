-- ===== src/View/Served.antt =====
-- What the service worker answers from the store that a visit leaves.
use feedo.Base.{
  ◌≡◌, refl, ap, ◌∙◌, subst, ℕ, String, ◌<>◌, List, [], ◌∷◌, Option, none, some, true, false,
  str_eq, if◌then◌else◌, All,
}
use text.Mathlib.TextPositions.{starts_with-append}
use feedo.Sandbox.{
  Answer, respond, handle_fetch, join_parts, with_index, get_mime_type, file_path, join,
}
use feedo.Sandbox.Paths.{HasNoSlash, split-path, sandbox_key-path}
use feedo.View.{
  Store, ZipEntry, Host, View, Try, good, thrown, key_of, save_all, look_up, init_sandbox, item_of,
}
use feedo.View.Overlay.{files, Downloads, init_sandbox-Downloads, init_sandbox-files, or_stored}

-- The answer with a file's content, the script appended to a page.
abbrev pub answer_with : (String → String) → String → String → String → Answer
answer_with to_lower_case interceptor path content =
    let mime_type = get_mime_type to_lower_case path in
    record {
      status = 200;
      headers = ("Content-Type", mime_type) ∷ ("Cache-Control", "public, max-age=3600") ∷ [];
      body = if str_eq mime_type "text/html" then content <> interceptor else content;
    }

respond-found :
    (to_lower_case : String → String) (interceptor : String) (store : Store) (cid part : String)
    (parts : List String) (content : String)
    → HasNoSlash cid
    → HasNoSlash part
    → All HasNoSlash parts
    → store (key_of cid (with_index (join_parts part parts))) ≡ some content
    → respond to_lower_case interceptor
        (item_of store)
        ("/sandbox/" <> cid <> "/" <> join_parts part parts)
      ≡ answer_with to_lower_case interceptor (with_index (join_parts part parts)) content
unfolding respond file_path join
respond-found to_lower_case interceptor store cid part parts content c p ps held =
    rw (respond, sandbox_key-path cid part parts c p ps, held, split-path cid part parts c p ps)
      refl

abbrev pub not_found : Answer
not_found = record { status = 404; headers = []; body = "File not found in Feedo network sandbox." }

respond-missing :
    (to_lower_case : String → String) (interceptor : String) (store : Store) (cid part : String)
    (parts : List String)
    → HasNoSlash cid
    → HasNoSlash part
    → All HasNoSlash parts
    → store (key_of cid (with_index (join_parts part parts))) ≡ none
    → respond to_lower_case interceptor
        (item_of store)
        ("/sandbox/" <> cid <> "/" <> join_parts part parts)
      ≡ not_found
unfolding respond
respond-missing to_lower_case interceptor store cid part parts c p ps held =
    rw (respond, sandbox_key-path cid part parts c p ps, held) refl

pub respond-init_sandbox :
    (to_lower_case : String → String) (interceptor : String) (host : Host) (cid : String)
    (store : Store) (entries : List ZipEntry) (v : View) (part : String) (parts : List String)
    (content : String)
    → Downloads host cid store entries []
    → HasNoSlash cid
    → HasNoSlash part
    → All HasNoSlash parts
    → files cid entries (key_of cid (with_index (join_parts part parts))) ≡ some content
    → respond to_lower_case interceptor
        (item_of (init_sandbox host cid store v).0)
        ("/sandbox/" <> cid <> "/" <> join_parts part parts)
      ≡ answer_with to_lower_case interceptor (with_index (join_parts part parts)) content
unfolding respond
respond-init_sandbox to_lower_case interceptor host cid store entries v part parts content d c p ps
      held =
    let path = key_of cid (with_index (join_parts part parts)) in
    let (ready, over) = init_sandbox-files host cid store entries v d in
    respond-found to_lower_case interceptor (init_sandbox host cid store v).0 cid part parts content
      c p ps (over path ∙ ap (λ f. or_stored f (store path)) held)

-- The answer to a path, for what is kept of it.
abbrev pub answer_for : (String → String) → String → String → Option String → Answer
answer_for to_lower_case interceptor path (some content) =
    answer_with to_lower_case interceptor path content
answer_for to_lower_case interceptor path none = not_found

respond-kept :
    (to_lower_case : String → String) (interceptor : String) (store : Store) (cid part : String)
    (parts : List String) (held : Option String)
    → HasNoSlash cid
    → HasNoSlash part
    → All HasNoSlash parts
    → store (key_of cid (with_index (join_parts part parts))) ≡ held
    → respond to_lower_case interceptor
        (item_of store)
        ("/sandbox/" <> cid <> "/" <> join_parts part parts)
      ≡ answer_for to_lower_case interceptor (with_index (join_parts part parts)) held
respond-kept to_lower_case interceptor store cid part parts (some content) c p ps is =
    respond-found to_lower_case interceptor store cid part parts content c p ps is
respond-kept to_lower_case interceptor store cid part parts none c p ps is =
    respond-missing to_lower_case interceptor store cid part parts c p ps is

-- If a first visit downloads a site and every file is saved, and the pathname of a request, as `new
-- URL` gives it, is /sandbox/, the id and a path, the id and the parts of the path without a slash,
-- then the service worker answers with status 200 and the content of the archive's file whose name
-- is literally that path, with the index page where the path asks for a directory; where the
-- archive has no file of that name, with what the store had for it before; and with status 404
-- where the store had nothing either.
pub handle_fetch-init_sandbox :
    (url_pathname : String → String) (url : String) (to_lower_case : String → String)
    (interceptor : String) (host : Host) (cid : String) (store : Store) (entries : List ZipEntry)
    (v : View) (part : String) (parts : List String)
    → Downloads host cid store entries []
    → HasNoSlash cid
    → HasNoSlash part
    → All HasNoSlash parts
    → url_pathname url ≡ "/sandbox/" <> cid <> "/" <> join_parts part parts
    → let path = with_index (join_parts part parts) in
      handle_fetch url_pathname to_lower_case interceptor
        (item_of (init_sandbox host cid store v).0)
        url
      ≡ some (
          answer_for to_lower_case interceptor path
            (or_stored (files cid entries (key_of cid path)) (store (key_of cid path))))
unfolding handle_fetch
handle_fetch-init_sandbox url_pathname url to_lower_case interceptor host cid store entries v part
      parts d c p ps asked =
    let path = key_of cid (with_index (join_parts part parts)) in
    let (ready, over) = init_sandbox-files host cid store entries v d in
    let answered =
      respond-kept to_lower_case interceptor (init_sandbox host cid store v).0 cid part parts
        (or_stored (files cid entries path) (store path)) c p ps (over path) in
    rw (handle_fetch, asked, starts_with-append "/sandbox/" (cid <> "/" <> join_parts part parts))
      (ap some answered)

init_sandbox-cached :
    (host : Host) (cid : String) (store : Store) (v : View) (page : String)
    → host.has_service_worker ≡ true
    → host.register ≡ good tt
    → host.readable ≡ good tt
    → store (key_of cid "index.html") ≡ some page
    → init_sandbox host cid store v
      ≡ (store, record v { loading_msg = "Found in local cache. Launching..."; is_ready = true })
unfolding init_sandbox look_up
init_sandbox-cached host cid store v page supported registered readable held =
    rw (supported, registered, readable, held) refl

save_all-refused :
    (save : String → Try (Unit {0})) (cid : String) (e : ZipEntry) (rest : List ZipEntry) (n : ℕ)
    (store : Store) (v : View) (content text : String)
    → e.dir ≡ false
    → e.content ≡ good content
    → save (key_of cid e.name) ≡ thrown text
    → save_all save cid (e ∷ rest) n store v ≡ (store, record v { error = some text })
unfolding save_all
save_all-refused save cid e rest n store v content text file unpacked refused =
    rw (file, unpacked, refused) refl

-- If saving a file of the archive fails after index.html was saved, the page shows the error; but
-- when nothing else holds that file, every later visit is ready at once without a download, and the
-- service worker answers the file's path, where its parts and the id have no slash, with status
-- 404.
pub respond-interrupted :
    (to_lower_case : String → String) (interceptor : String) (host later : Host) (cid : String)
    (store : Store) (es rest : List ZipEntry) (e : ZipEntry) (v w : View)
    (page content text part : String) (parts : List String)
    → Downloads host cid store es (e ∷ rest)
    → files cid es (key_of cid "index.html") ≡ some page
    → e.dir ≡ false
    → e.content ≡ good content
    → host.save (key_of cid e.name) ≡ thrown text
    → later.has_service_worker ≡ true
    → later.register ≡ good tt
    → later.readable ≡ good tt
    → HasNoSlash cid
    → HasNoSlash part
    → All HasNoSlash parts
    → e.name ≡ with_index (join_parts part parts)
    → files cid es (key_of cid e.name) ≡ none
    → store (key_of cid e.name) ≡ none
    → ((init_sandbox host cid store v).1.error ≡ some text)
      × ((init_sandbox later cid (init_sandbox host cid store v).0 w).1.is_ready ≡ true)
      × (respond to_lower_case interceptor
            (item_of (init_sandbox later cid (init_sandbox host cid store v).0 w).0)
            ("/sandbox/" <> cid <> "/" <> join_parts part parts)
          ≡ not_found)
respond-interrupted to_lower_case interceptor host later cid store es rest e v w page content text
      part parts d paged file unpacked refused supported registered readable c p ps name new
      absent =
    let (m, after, shown, same, over) = init_sandbox-Downloads host cid store es (e ∷ rest) v d in
    let stopped : init_sandbox host cid store v ≡ (after, record shown { error = some text }) =
      same
      ∙ save_all-refused host.save cid e rest m after shown content text file unpacked refused in
    let again =
      init_sandbox-cached later cid after w page supported registered readable
        (over (key_of cid "index.html") ∙ rw (paged) refl) in
    let gone : after (key_of cid (with_index (join_parts part parts))) ≡ none =
      subst (λ name. after (key_of cid name) ≡ none) name
        (over (key_of cid e.name) ∙ rw (new) absent) in
    rw (stopped) (
      refl,
      ap (λ r. r.1.is_ready) again,
      rw (again) (respond-missing to_lower_case interceptor after cid part parts c p ps gone),
    )
