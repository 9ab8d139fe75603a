-- ===== src/Search/Keys.antt =====
-- Over which path a request for documents is signed.
use feedo.Base.{ℕ, Bool-cases, inl, inr, ◌==◌, ◌≡◌, refl, ap, ◌∙◌, String, ◌<>◌, Option}
use Prim.Native.String.{[], ◌∷◌}
use text.Mathlib.TextLemmas.{nil-append, cons-append, append_assoc}
use feedo.Text.{to_string, before_query}
use feedo.Wallet.{Ethers}
use Prim.Native.Char.{code}
use feedo.Search.{parameter, documents_path}

before_query-append :
    (p q : String) → before_query p ≡ p → before_query (p <> q) ≡ p <> before_query q
unfolding before_query
before_query-append [] q h = rw (nil-append, nil-append) refl
before_query-append (c ∷ s) q h = elim (Bool-cases (code c == b'?')) [
  | inl mark ↦ let e = rw mark at h in cc
  | inr other ↦
      let e = rw other at h in
      let same : before_query s ≡ s = cc in
      rw (cons-append, other, cons-append, before_query-append s q same) refl
]

before_query-query : (q : String) → before_query ("?" <> q) ≡ ""
unfolding before_query
before_query-query q = rw (cons-append) refl

documents_before_query : (q : String) → before_query ("/documents?" <> q) ≡ "/documents"
documents_before_query q =
    ap before_query (append_assoc "/documents" "?" q)
    ∙ before_query-append "/documents" ("?" <> q) (unfold before_query in refl)
    ∙ ap (λ t. "/documents" <> t) (before_query-query q)

module _ (ethers : Ethers) where
  -- The path of a request for documents that is signed is `/documents`, whatever the parameters of
  -- the request, even where a parameter has a question mark.
  pub before_query-documents_path :
      (private_key usage_key did : Option String) (limit offset : ℕ) (item_type : String)
      (app_id namespace : Option String)
      → before_query
          (documents_path ethers private_key usage_key did limit offset item_type app_id namespace)
        ≡ "/documents"
  unfolding before_query
  before_query-documents_path private_key usage_key did limit offset item_type app_id namespace =
      documents_before_query (
        "limit="
        <> to_string limit
        <> "&offset="
        <> to_string offset
        <> "&item_type="
        <> item_type
        <> parameter "app_id" app_id
        <> parameter "namespace" namespace)
