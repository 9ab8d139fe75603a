-- ===== src/Wallet.antt =====
-- The `ethers` library, which signs requests, and the headers that the modules build with it.
use feedo.Base.{String, ◌<>◌, List, [], ◌∷◌, Option, none, some}
use feedo.Text.{to_string}
use feedo.Runtime.Async.{done, fail, ◌>>=◌}
use feedo.Runtime.Wire.{invalid_key}
use feedo.Router.Discover.{Action, date_now}
use feedo.Router.Select.{chosen}

-- `new ethers.Wallet(key)` throws on a text that is no key; else `wallet.address` is given by
-- `address`, the result of `wallet.signMessage(text)` by `sign`, and the public key by
-- `public_key`. `ethers.computeAddress` throws on a text that is no public key.
pub record Ethers : Type 0 where
  pub address : String → Option String
  pub sign : String → String → String
  pub public_key : String → String
  pub compute_address : String → Option String

abbrev pub Headers : Type 0
Headers = List (String × String)

abbrev pub did_of : String → String
did_of address = "did:feedo:" <> address

abbrev pub action_payload : String → String → String → String
action_payload method path timestamp = "FeedoAction:" <> method <> ":" <> path <> ":" <> timestamp

abbrev pub feedo_headers : String → String → String → Headers
feedo_headers did timestamp signature =
    ("X-Feedo-DID", did) ∷ ("X-Feedo-Timestamp", timestamp) ∷ ("X-Feedo-Signature", signature) ∷ []

module _ (ethers : Ethers) where
  -- Signs with a key, in the name of a DID.
  unfoldable pub sign_as : String → String → String → String → Action Headers
  sign_as key did method path = do
    time ← date_now
    let timestamp = to_string time
    done (feedo_headers did timestamp (ethers.sign key (action_payload method path timestamp)))

  unfoldable pub sign_with : String → String → String → Action Headers
  unfolding sign_as
  sign_with key method path = elim (ethers.address key) [
    | none ↦ fail invalid_key
    | some address ↦ sign_as key (did_of address) method path
  ]

  -- `if (this.privateKey) { … }`: no key, no headers.
  unfoldable pub signed_headers : Option String → String → String → Action Headers
  unfolding sign_with
  signed_headers key method path = elim (chosen key) [
    | none ↦ done []
    | some k ↦ sign_with k method path
  ]
