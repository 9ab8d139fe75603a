-- ===== src/Storage/Contract.antt =====
-- What the proofs rely on of storage nodes, which the SDK only calls: content addressing.
use feedo.Base.{String, ◌<>◌, ◌≡◌, ◌⊎◌, true, false}
use feedo.Runtime.Wire.{
  Bytes, form, Request, Response, http, race, answered, refused, settled, ok_status,
}
use feedo.Runtime.Bounds.{Contract}
use feedo.Storage.Requests.{download_path}

-- A good answer to an upload is the address of the content, and one to a download is the content
-- of the address, for the contents in question. `Lossy` is `Unit` where a node may refuse, be
-- silent or fail, and `⊥` where every request is answered well.
module _ (address_of : Bytes → String) (Stored : Bytes → Type 0) (Lossy : Type 0) where
  pub record Keeps (req : Request) (r : Response) : Type 0 where
    pub uploaded :
        (filename : String) (content : Bytes)
        → Stored content
        → req.body ≡ form filename content
        → r.text ≡ address_of content
    pub downloaded :
        (base : String) (content : Bytes)
        → Stored content
        → req.url ≡ base <> download_path (address_of content)
        → req.method ≡ "GET"
        → r.bytes ≡ content

  abbrev pub Honest : Contract
  Honest (http req) (answered r) =
      ((ok_status r.status ≡ false) × Lossy) ⊎ ((ok_status r.status ≡ true) × Keeps req r)
  Honest (http req) (refused e) = Lossy
  Honest (http req) (settled ends) = Lossy
  Honest (race urls) reply = Unit
