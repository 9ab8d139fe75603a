-- ===== src/View/Tests.antt =====
-- Visits to the site "Qm1", of a page and a style sheet.
use feedo.Base.{
  ◌≡◌, refl, inl, inr, String, [], ◌∷◌, Option, none, some, true, false, truthy, str_eq,
  if◌then◌else◌,
}
use feedo.Runtime.Wire.{Bytes}
use feedo.Sandbox.{respond, handle_fetch, join_parts, with_index}
use feedo.View.{
  Store, ZipEntry, Host, Try, good, thrown, first_ok, storage_nodes, init_sandbox, save_all,
  initial_view, open_site, view_content, frame, item_of,
}
use feedo.View.Overlay.{files, or_stored, Downloads, init_sandbox-files}
use feedo.View.Served.{answer_with, not_found, handle_fetch-init_sandbox, respond-interrupted}
use feedo.View.Panels.{IsSettled, open_site-IsSettled, respond-frame_src}
use feedo.View.Ends.{IsDone, init_sandbox-IsDone}

abbrev page : ZipEntry
page = record { name = "index.html"; dir = false; content = good "<p>" }

abbrev css : ZipEntry
css = record { name = "css/"; dir = true; content = good "" }

abbrev style : ZipEntry
style = record { name = "css/a.css"; dir = false; content = good "p{}" }

-- The first node does not answer.
abbrev fetch_ok : String → Option (Try Bytes)
fetch_ok url =
    if str_eq url "http://178.18.253.94:3001/download/Qm1" then some (good (80 ∷ [])) else none

abbrev fresh : Host
fresh = record {
  has_service_worker = true;
  register = good tt;
  readable = good tt;
  fetch_ok = fetch_ok;
  load_zip = λ bytes. good (page ∷ css ∷ style ∷ []);
  save = λ key. good tt;
}

-- There is no space for the style sheet.
abbrev full : Host
full = record fresh {
  save = λ key. if str_eq key "Qm1/css/a.css" then thrown "QuotaExceededError" else good tt;
}

abbrev nothing : Store
nothing key = none

fetched_fresh : first_ok fetch_ok "Qm1" storage_nodes ≡ some (good (80 ∷ []))
unfolding first_ok
fetched_fresh = refl

fresh-Downloads : Downloads fresh "Qm1" nothing (page ∷ css ∷ style ∷ []) []
fresh-Downloads = record {
  supported = refl;
  registered = refl;
  readable = refl;
  absent = refl;
  bytes = 80 ∷ [];
  fetched = fetched_fresh;
  opened = refl;
  saved = (inr ("<p>", refl, refl, refl), (inl refl, (inr ("p{}", refl, refl, refl), tt)));
}

full-Downloads : Downloads full "Qm1" nothing (page ∷ css ∷ []) (style ∷ [])
full-Downloads = record {
  supported = refl;
  registered = refl;
  readable = refl;
  absent = refl;
  bytes = 80 ∷ [];
  fetched = fetched_fresh;
  opened = refl;
  saved = (inr ("<p>", refl, refl, refl), (inl refl, tt));
}

init_sandbox-files_test :
    ((init_sandbox fresh "Qm1" nothing initial_view).1.is_ready ≡ true)
    × ((j : String)
        → (init_sandbox fresh "Qm1" nothing initial_view).0 j
          ≡ or_stored (files "Qm1" (page ∷ css ∷ style ∷ []) j) none)
init_sandbox-files_test =
    init_sandbox-files fresh "Qm1" nothing (page ∷ css ∷ style ∷ []) initial_view fresh-Downloads

handle_fetch-init_sandbox_example :
    handle_fetch
      (λ url. "/sandbox/Qm1/css/a.css")
      (λ s. s)
      "<script>"
      (item_of (init_sandbox fresh "Qm1" nothing initial_view).0)
      "https://feedo.ink/sandbox/Qm1/css/a.css?v=2"
    ≡ some (answer_with (λ s. s) "<script>" "css/a.css" "p{}")
unfolding files with_index join_parts truthy
handle_fetch-init_sandbox_example =
    handle_fetch-init_sandbox (λ url. "/sandbox/Qm1/css/a.css")
      "https://feedo.ink/sandbox/Qm1/css/a.css?v=2" (λ s. s) "<script>" fresh "Qm1" nothing
      (page ∷ css ∷ style ∷ []) initial_view "css" ("a.css" ∷ []) fresh-Downloads
      (refl, (refl, (refl, tt))) (refl, (refl, (refl, tt)))
      ((refl, (refl, (refl, (refl, (refl, tt))))), tt) refl

-- An archive with a file whose name has a space.
abbrev spaced : ZipEntry
spaced = record { name = "a b.css"; dir = false; content = good "p{}" }

-- Its request has the space as %20, and no file has that name.
spaced_test :
    respond
      (λ s. s)
      "<script>"
      (item_of (save_all (λ key. good tt) "Qm1" (spaced ∷ []) 0 nothing initial_view).0)
      "/sandbox/Qm1/a%20b.css"
    ≡ not_found
unfolding save_all respond truthy
spaced_test = refl

respond-interrupted_example :
    ((init_sandbox full "Qm1" nothing initial_view).1.error ≡ some "QuotaExceededError")
    × ((init_sandbox fresh "Qm1"
          (init_sandbox full "Qm1" nothing initial_view).0
          initial_view).1.is_ready
        ≡ true)
    × (respond
          (λ s. s)
          "<script>"
          (item_of
            (init_sandbox fresh "Qm1"
              (init_sandbox full "Qm1" nothing initial_view).0
              initial_view).0)
          "/sandbox/Qm1/css/a.css"
        ≡ not_found)
unfolding files with_index join_parts truthy
respond-interrupted_example =
    respond-interrupted (λ s. s) "<script>" full fresh "Qm1" nothing (page ∷ css ∷ []) [] style
      initial_view initial_view "<p>" "p{}" "QuotaExceededError" "css" ("a.css" ∷ []) full-Downloads
      refl refl refl refl refl refl refl (refl, (refl, (refl, tt))) (refl, (refl, (refl, tt)))
      ((refl, (refl, (refl, (refl, (refl, tt))))), tt) refl refl refl

init_sandbox-IsDone_example :
    IsDone "Qm1" initial_view nothing (init_sandbox full "Qm1" nothing initial_view)
init_sandbox-IsDone_example = init_sandbox-IsDone full "Qm1" nothing initial_view

open_site-IsSettled_example :
    let shown = (open_site full (some "uni.feedo") (some "Qm1") nothing initial_view).1 in
    IsSettled "Qm1" shown (view_content (some "uni.feedo") (some "Qm1") shown)
open_site-IsSettled_example = open_site-IsSettled full "uni.feedo" "Qm1" nothing refl refl

respond-frame_src_test :
    (view_content
        (some "uni.feedo")
        (some "Qm1")
        (open_site fresh (some "uni.feedo") (some "Qm1") nothing initial_view).1
      ≡ frame "/sandbox/Qm1/index.html" ∷ [])
    × (respond
          (λ s. s)
          "<script>"
          (item_of (open_site fresh (some "uni.feedo") (some "Qm1") nothing initial_view).0)
          "/sandbox/Qm1/index.html"
        ≡ answer_with (λ s. s) "<script>" "index.html" "<p>")
unfolding files
respond-frame_src_test =
    respond-frame_src (λ s. s) "<script>" fresh "uni.feedo" "Qm1" nothing (page ∷ css ∷ style ∷ [])
      "<p>" refl refl fresh-Downloads (refl, (refl, (refl, tt))) refl
