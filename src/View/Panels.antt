-- ===== src/View/Panels.antt =====
-- What the page of a site shows when a visit has ended.
use feedo.Base.{
  ◌≡◌, refl, ◌⊎◌, inl, inr, String, List, [], ◌∷◌, some, true, false, truthy, str_eq, if◌then◌else◌,
  Bool-cases,
}
use feedo.Sandbox.{respond, with_index, join_parts}
use feedo.Sandbox.Paths.{HasNoSlash}
use feedo.View.{
  Store, ZipEntry, Host, View, initial_view, init_sandbox, open_site, Panel, loading, failure,
  frame, frame_src, viewer_area, view_content, item_of, key_of,
}
use feedo.View.Ends.{IsShown, init_sandbox-IsDone}
use feedo.View.Overlay.{files, Downloads, init_sandbox-files}
use feedo.View.Served.{answer_with, respond-init_sandbox}

-- The frame alone, or the error alone, which is nothing to see where it is the empty text.
abbrev pub IsSettled : String → View → List Panel → Type 0
IsSettled cid v panels =
    ((v.is_ready ≡ true) × (panels ≡ frame (frame_src cid) ∷ []))
    ⊎ ((text : String) × (v.error ≡ some text)
        × (panels ≡ (if truthy text then failure text ∷ [] else loading v.loading_msg ∷ [])))

viewer_area-IsSettled :
    (cid : String) (v : View) → IsShown initial_view v → IsSettled cid v (viewer_area cid v)
unfolding viewer_area
viewer_area-IsSettled cid v (inl (ready, calm)) = inl (ready, rw (viewer_area, ready, calm) refl)
viewer_area-IsSettled cid v (inr (idle, text, is)) = inr (
  text,
  is,
  elim (Bool-cases (truthy text)) [
    | inl full ↦ rw (viewer_area, idle, is, full) refl
    | inr blank ↦ rw (viewer_area, idle, is, blank) refl
  ],
)

-- When the first visit to a site with a domain and an id has ended, the viewer shows the frame
-- alone, or the message of what was thrown alone; but where that message is empty, it goes on
-- showing that it loads.
pub open_site-IsSettled :
    (host : Host) (domain cid : String) (store : Store)
    → str_eq domain "" ≡ false
    → str_eq cid "" ≡ false
    → let shown = (open_site host (some domain) (some cid) store initial_view).1 in
      IsSettled cid shown (view_content (some domain) (some cid) shown)
unfolding open_site view_content
open_site-IsSettled host domain cid store named known =
    rw (named, known)
      (viewer_area-IsSettled cid (init_sandbox host cid store initial_view).1
        (init_sandbox-IsDone host cid store initial_view).0)

viewer_area_ready :
    (cid : String) (v : View)
    → IsShown initial_view v
    → v.is_ready ≡ true
    → viewer_area cid v ≡ frame (frame_src cid) ∷ []
unfolding viewer_area
viewer_area_ready cid v (inl (ready, calm)) _ = rw (viewer_area, ready, calm) refl
viewer_area_ready cid v (inr (idle, text, is)) ready = cc

-- After a first visit that downloads a site, the address of the frame is answered with the index
-- page of the archive.
pub respond-frame_src :
    (to_lower_case : String → String) (interceptor : String) (host : Host) (domain cid : String)
    (store : Store) (entries : List ZipEntry) (page : String)
    → str_eq domain "" ≡ false
    → str_eq cid "" ≡ false
    → Downloads host cid store entries []
    → HasNoSlash cid
    → files cid entries (key_of cid "index.html") ≡ some page
    → let (after, shown) = open_site host (some domain) (some cid) store initial_view in
      (view_content (some domain) (some cid) shown ≡ frame (frame_src cid) ∷ [])
      × (respond to_lower_case interceptor (item_of after) (frame_src cid)
          ≡ answer_with to_lower_case interceptor "index.html" page)
unfolding open_site view_content with_index join_parts truthy
respond-frame_src to_lower_case interceptor host domain cid store entries page named known d c
      held =
    let (ready, over) = init_sandbox-files host cid store entries initial_view d in
    rw (named, known)
      (
        viewer_area_ready cid (init_sandbox host cid store initial_view).1
            (init_sandbox-IsDone host cid store initial_view).0 ready,
        respond-init_sandbox to_lower_case interceptor host cid store entries initial_view
            "index.html" [] page d c
            (refl, (refl, (refl, (refl, (refl, (refl, (refl, (refl, (refl, (refl, tt)))))))))) tt
            held,
      )
