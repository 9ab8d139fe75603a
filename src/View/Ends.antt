-- ===== src/View/Ends.antt =====
-- Every visit ends, and touches only its own site's files.
use feedo.Base.{
  ◌≡◌, ◌≢◌, refl, ◌∙◌, ◌⊎◌, inl, inr, ℕ, ◌+◌, String, List, [], ◌∷◌, Option, none, some, true,
  false, Bool, str_eq, str_eq_iff, Bool-cases,
}
use feedo.Runtime.Wire.{Bytes}
use feedo.View.{
  Store, set_item, ZipEntry, Host, View, Try, good, thrown, key_of, fail_with, message,
  unpacked_files, save_all, first_ok, storage_nodes, unpack, download_site, look_up, init_sandbox,
}

-- What a visit that finds a page `before` makes of it: ready, or with an error.
abbrev pub IsShown : View → View → Type 0
IsShown before v =
    ((v.is_ready ≡ true) × (v.error ≡ before.error))
    ⊎ ((v.is_ready ≡ before.is_ready) × (text : String) × (v.error ≡ some text))

-- What a visit leaves: such a page, and every key outside the site as it was.
abbrev pub IsDone : String → View → Store → Store × View → Type 0
IsDone cid v before (after, w) =
    IsShown v w × ((j : String) → ((path : String) → j ≢ key_of cid path) → after j ≡ before j)

set_item-other :
    (store : Store) (key content j : String) → j ≢ key → set_item store key content j ≡ store j
unfolding set_item
set_item-other store key content j other = elim (Bool-cases (str_eq j key)) [
  | inl same ↦ absurd (other ((str_eq_iff j key).0 same))
  | inr differ ↦ rw (differ) refl
]

failed_IsDone :
    (cid text : String) (store : Store) (v : View) → IsDone cid v store (fail_with text store v)
failed_IsDone cid text store v = (inr (refl, text, refl), λ j out. refl)

ready_IsDone :
    (cid text : String) (store : Store) (v : View)
    → IsDone cid v store (store, record v { loading_msg = text; is_ready = true })
ready_IsDone cid text store v = (inl (refl, refl), λ j out. refl)

-- What is thrown is shown.
attempt_IsDone :
    {A : Type 0} (cid : String) (store : Store) (v : View) (t : Try A) (next : A → Store × View)
    → ((a : A) → IsDone cid v store (next a))
    → IsDone cid v store (elim t [ thrown text ↦ fail_with text store v | good a ↦ next a ])
attempt_IsDone cid store v (thrown text) next done = failed_IsDone cid text store v
attempt_IsDone cid store v (good a) next done = done a

set_item-IsDone :
    (cid name content : String) (v : View) (store : Store) (r : Store × View)
    → IsDone cid v (set_item store (key_of cid name) content) r
    → IsDone cid v store r
set_item-IsDone cid name content v store r (shown, kept) =
    (shown, λ j out. kept j out ∙ set_item-other store (key_of cid name) content j (out name))

entry_IsDone :
    (cid : String) (store : Store) (v : View) (dir : Bool) (content : Try String)
    (save : String → Try (Unit {0})) (skipped : Store × View) (saved : String → Store × View)
    (name : String)
    → IsDone cid v store skipped
    → ((text : String) → IsDone cid v store (saved text))
    → IsDone cid v store (elim dir [
      | true ↦ skipped
      | false ↦ elim content [
        | thrown text ↦ fail_with text store v
        | good text ↦ elim (save (key_of cid name)) [
          | thrown refused ↦ fail_with refused store v
          | good _ ↦ saved text
        ]
      ]
    ])
entry_IsDone cid store v true content save skipped saved name done next = done
entry_IsDone cid store v false content save skipped saved name done next =
    attempt_IsDone cid store v content
      (λ text. elim (save (key_of cid name)) [
        | thrown refused ↦ fail_with refused store v
        | good _ ↦ saved text
      ])
      (λ text.
        attempt_IsDone cid store v (save (key_of cid name)) (λ ok. saved text) (λ ok. next text))

save_all-IsDone :
    (save : String → Try (Unit {0})) (cid : String) (es : List ZipEntry) (n : ℕ) (store : Store)
    (v : View)
    → IsDone cid v store (save_all save cid es n store v)
unfolding save_all
save_all-IsDone save cid [] n store v = ready_IsDone cid "Decentralized site is ready." store v
save_all-IsDone save cid (e ∷ es) n store v =
    let saved = λ (content : String).
      save_all save cid es (n + 1) (set_item store (key_of cid e.name) content)
        (message (unpacked_files (n + 1)) v) in
    entry_IsDone cid store v e.dir e.content save (save_all save cid es n store v) saved e.name
      (save_all-IsDone save cid es n store v)
      (λ content. set_item-IsDone cid e.name content v store (saved content) (
        save_all-IsDone save cid es (n + 1) (set_item store (key_of cid e.name) content)
          (message (unpacked_files (n + 1)) v)))

unpack-IsDone :
    (host : Host) (cid : String) (body : Try Bytes) (store : Store) (v : View)
    → IsDone cid v store (unpack host cid body store v)
unfolding unpack
unpack-IsDone host cid (thrown text) store v = failed_IsDone cid text store v
unpack-IsDone host cid (good buffer) store v =
    let w = message "Unpacking and verifying cryptographic hashes..." v in
    attempt_IsDone cid store w (host.load_zip buffer)
      (λ entries. save_all host.save cid entries 0 store w)
      (λ entries. save_all-IsDone host.save cid entries 0 store w)

answered_IsDone :
    (host : Host) (cid : String) (store : Store) (v : View) (body : Option (Try Bytes))
    → IsDone cid v store (elim body [
      | none ↦ fail_with "Failed to download CID from any storage node: Not Found" store v
      | some body ↦ unpack host cid body store (message "Downloading decentralized blob..." v)
    ])
answered_IsDone host cid store v none = failed_IsDone cid _ store v
answered_IsDone host cid store v (some body) = unpack-IsDone host cid body store _

download_site-IsDone :
    (host : Host) (cid : String) (store : Store) (v : View)
    → IsDone cid v store (download_site host cid store v)
unfolding download_site
download_site-IsDone host cid store v =
    answered_IsDone host cid store v (first_ok host.fetch_ok cid storage_nodes)

held_IsDone :
    (host : Host) (cid : String) (store : Store) (v : View) (text : String) (page : Option String)
    → IsDone cid v store (elim page [
      | some content ↦
          (store, record v { loading_msg = "Found in local cache. Launching..."; is_ready = true })
      | none ↦ download_site host cid store (message text v)
    ])
held_IsDone host cid store v text none = download_site-IsDone host cid store (message text v)
held_IsDone host cid store v text (some page) =
    ready_IsDone cid "Found in local cache. Launching..." store v

look_up-IsDone :
    (host : Host) (cid : String) (store : Store) (v : View)
    → IsDone cid v store (look_up host cid store v)
unfolding look_up
look_up-IsDone host cid store v =
    attempt_IsDone cid store v host.readable _
      (λ ok. held_IsDone host cid store v _ (store (key_of cid "index.html")))

registered_IsDone :
    (host : Host) (cid : String) (store : Store) (v : View)
    → IsDone cid v store (elim host.register [
      | thrown text ↦ fail_with text store v
      | good _ ↦ look_up host cid store (message "Checking local node storage..." v)
    ])
registered_IsDone host cid store v =
    attempt_IsDone cid store v host.register _ (λ ok. look_up-IsDone host cid store _)

-- Every visit ends with a page that is ready, with no new error, or has an error and is not newly
-- ready, and leaves every key that does not belong to the site as it was.
pub init_sandbox-IsDone :
    (host : Host) (cid : String) (store : Store) (v : View)
    → IsDone cid v store (init_sandbox host cid store v)
unfolding init_sandbox
init_sandbox-IsDone host cid store v =
    let w = message "Registering decentralized Service Worker..." v in
    choose w host.has_service_worker
  where
    choose :
        (w : View) (b : Bool)
        → IsDone cid w store (elim b [
          | false ↦ fail_with "Service Workers are not supported in this browser." store w
          | true ↦ elim host.register [
            | thrown text ↦ fail_with text store w
            | good _ ↦ look_up host cid store (message "Checking local node storage..." w)
          ]
        ])
    choose w true = registered_IsDone host cid store w
    choose w false = failed_IsDone cid _ store w
