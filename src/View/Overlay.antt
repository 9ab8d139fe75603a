-- ===== src/View/Overlay.antt =====
-- What a visit that downloads a site leaves in the store.
use feedo.Base.{
  ◌≡◌, refl, sym, ap, ◌∙◌, ◌⊎◌, inl, inr, ℕ, ◌+◌, String, List, [], ◌∷◌, ◌++◌, Option, none, some,
  Bool, true, false, str_eq, if◌then◌else◌, All,
}
use feedo.Runtime.Wire.{Bytes}
use feedo.View.{
  Store, set_item, ZipEntry, Host, View, Try, good, thrown, key_of, message, unpacked_files,
  save_all, first_ok, storage_nodes, unpack, download_site, look_up, init_sandbox,
}

abbrev pub or_stored : Option String → Option String → Option String
or_stored none old = old
or_stored (some new) old = some new

or_stored_assoc :
    (a b old : Option String) → or_stored (or_stored a b) old ≡ or_stored a (or_stored b old)
or_stored_assoc none b old = refl
or_stored_assoc (some new) b old = refl

chosen : (b : Bool) (a : Option String) → a ≡ none → or_stored (if b then a else none) ≡ λ old. old
chosen true a nothing = rw (nothing) refl
chosen false a nothing = refl

written :
    (b : Bool) (content : String) (old : Option String)
    → (if b then some content else old) ≡ or_stored (if b then some content else none) old
written true content old = refl
written false content old = refl

abbrev content_of : ZipEntry → Option String
content_of e = elim e.dir [
  | true ↦ none
  | false ↦ elim e.content [ good content ↦ some content | thrown _ ↦ none ]
]

-- The archive as a map from keys; of two entries of one name the later counts.
unfoldable pub files : String → List ZipEntry → String → Option String
files cid [] j = none
files cid (e ∷ es) j =
    or_stored (files cid es j) (if str_eq j (key_of cid e.name) then content_of e else none)

module _ (save : String → Try (Unit {0})) (cid : String) where
  -- An entry that is skipped, or unpacked and saved.
  abbrev pub IsSaved : ZipEntry → Type 0
  IsSaved e =
      (e.dir ≡ true)
      ⊎ ((content : String) × (e.dir ≡ false)
          × (e.content ≡ good content)
          × (save (key_of cid e.name) ≡ good tt))

  overlay_skipped :
      (e : ZipEntry) (es : List ZipEntry) (old : Option String) (j : String)
      → e.dir ≡ true
      → or_stored (files cid es j) old ≡ or_stored (files cid (e ∷ es) j) old
  unfolding files
  overlay_skipped e es old j skipped =
      let nothing : content_of e ≡ none = rw (skipped) refl in
      sym (
        or_stored_assoc (files cid es j) _ old
        ∙ ap (λ f. or_stored (files cid es j) (f old))
            (chosen (str_eq j (key_of cid e.name)) (content_of e) nothing))

  overlay_saved :
      (e : ZipEntry) (es : List ZipEntry) (store : Store) (content j : String)
      → e.dir ≡ false
      → e.content ≡ good content
      → or_stored (files cid es j) (set_item store (key_of cid e.name) content j)
        ≡ or_stored (files cid (e ∷ es) j) (store j)
  unfolding files set_item
  overlay_saved e es store content j file unpacked =
      let one : content_of e ≡ some content = rw (file, unpacked) refl in
      rw (or_stored_assoc, one) (ap (or_stored (files cid es j)) (written _ content (store j)))

  -- The entries in front that are all saved lie over what the store held.
  save_all-IsSaved :
      (es rest : List ZipEntry) (n : ℕ) (store : Store) (v : View)
      → All IsSaved es
      → (m : ℕ) × (after : Store) × (w : View) × (save_all save cid (es ++ rest) n store v
          ≡ save_all save cid rest m after w)
        × ((j : String) → after j ≡ or_stored (files cid es j) (store j))
  unfolding files save_all
  save_all-IsSaved [] rest n store v hs = (n, store, v, refl, λ j. refl)
  save_all-IsSaved (e ∷ es) rest n store v (inl skipped, hs) =
      let (m, after, w, same, over) = save_all-IsSaved es rest n store v hs in
      (m, after, w, rw (skipped) same, λ j. over j ∙ overlay_skipped e es (store j) j skipped)
  save_all-IsSaved (e ∷ es) rest n store v (inr (content, file, unpacked, saved), hs) =
      let (m, after, w, same, over) =
        save_all-IsSaved es rest (n + 1) (set_item store (key_of cid e.name) content)
          (message (unpacked_files (n + 1)) v) hs in
      (
        m,
        after,
        w,
        rw (file, unpacked, saved) same,
        λ j. over j ∙ overlay_saved e es store content j file unpacked,
      )

-- What a first visit needs of the browser, a node and the archive, up to a point in the list of
-- entries.
pub record Downloads (host : Host) (cid : String) (store : Store) (es rest : List ZipEntry)
    : Type 0 where
  pub supported : host.has_service_worker ≡ true
  pub registered : host.register ≡ good tt
  pub readable : host.readable ≡ good tt
  pub absent : store (key_of cid "index.html") ≡ none
  pub bytes : Bytes
  pub fetched : first_ok host.fetch_ok cid storage_nodes ≡ some (good bytes)
  pub opened : host.load_zip bytes ≡ good (es ++ rest)
  pub saved : All (IsSaved host.save cid) es

pub init_sandbox-Downloads :
    (host : Host) (cid : String) (store : Store) (es rest : List ZipEntry) (v : View)
    → Downloads host cid store es rest
    → (m : ℕ) × (after : Store) × (w : View) × (init_sandbox host cid store v
        ≡ save_all host.save cid rest m after w)
      × ((j : String) → after j ≡ or_stored (files cid es j) (store j))
unfolding init_sandbox look_up download_site unpack
init_sandbox-Downloads host cid store es rest v d =
    let (m, after, w, same, over) =
      save_all-IsSaved host.save cid es rest 0 store
        (message "Unpacking and verifying cryptographic hashes..." (
          message "Downloading decentralized blob..." (
            message "Connecting to Feedo P2P Storage Network..." (
              message "Checking local node storage..."
                (message "Registering decentralized Service Worker..." v)))))
        d.saved in
    (
      m,
      after,
      w,
      rw (d.supported, d.registered, d.readable, d.absent, d.fetched, d.opened) same,
      over,
    )

-- If a first visit downloads a site and every file is saved, then the page is ready, and the store
-- holds under each key what the archive has for it, the later of two entries of one name, or what
-- it held before.
pub init_sandbox-files :
    (host : Host) (cid : String) (store : Store) (entries : List ZipEntry) (v : View)
    → Downloads host cid store entries []
    → ((init_sandbox host cid store v).1.is_ready ≡ true)
      × ((j : String)
          → (init_sandbox host cid store v).0 j ≡ or_stored (files cid entries j) (store j))
unfolding save_all
init_sandbox-files host cid store entries v d =
    let (m, after, w, same, over) = init_sandbox-Downloads host cid store entries [] v d in
    (rw (same) refl, λ j. rw (same) (over j))
