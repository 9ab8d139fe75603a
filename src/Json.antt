-- ===== src/Json.antt =====
-- JSON values, and the text and JSON functions of the host that turn them into bytes and back.
use feedo.Base.{
  ℕ, zero, suc, truthy, true, false, String, List, [], ◌∷◌, Option, none, some, Bool, str_eq,
  if◌then◌else◌,
}

mutual
  pub data Json : Type 0 where
    null : Json
    bool : Bool → Json
    num : ℕ → Json
    str : String → Json
    arr : Items → Json
    obj : Fields → Json

  pub data Items : Type 0 where
    nil : Items
    cons : Json → Items → Items

  pub data Fields : Type 0 where
    end : Fields
    field : String → Json → Fields → Fields

-- `new TextEncoder` and `Buffer.from` of `JSON.stringify(v)`, and `JSON.parse` of the decoded text,
-- with `none` for a SyntaxError.
pub record Codec : Type 0 where
  pub stringify : Json → List ℕ
  pub parse : List ℕ → Option Json

-- `v.name` of a parsed value: `none` is `undefined`.
unfoldable pub get_field : String → Fields → Option Json
get_field name end = none
get_field name (field k v fs) = if str_eq k name then some v else get_field name fs

unfoldable pub items_of : List Json → Items
items_of [] = nil
items_of (v ∷ vs) = cons v (items_of vs)

unfoldable pub list_of : Items → List Json
list_of nil = []
list_of (cons v vs) = v ∷ list_of vs

-- JavaScript's truth value.
unfoldable pub is_true : Json → Bool
is_true null = false
is_true (bool b) = b
is_true (num zero) = false
is_true (num (suc n)) = true
is_true (str s) = truthy s
is_true (arr vs) = true
is_true (obj fs) = true
