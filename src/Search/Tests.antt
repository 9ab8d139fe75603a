-- ===== src/Search/Tests.antt =====
-- A client with a usage key.
use feedo.Base.{truthy, ℕ, ◌≡◌, refl, none, some, []}
use feedo.Runtime.Wire.{settled}
use feedo.Runtime.Async.{Env, ok, run}
use feedo.Text.{to_string}
use feedo.Router.State.{new_router}
use feedo.Wallet.{Ethers, feedo_headers}
use feedo.Text.{before_query}
use feedo.Search.{request_headers, documents_path}
use feedo.Search.Keys.{before_query-documents_path}

abbrev ethers : Ethers
ethers = record {
  address = λ k. some "0xD";
  sign = λ k t. t;
  public_key = λ k. "";
  compute_address = λ k. none;
}

abbrev silent : Env
silent = record { World = ℕ; serve = λ c w. (settled [], w); clock = λ w. w }

request_headers_test :
    run silent
      (request_headers ethers
        (some "k")
        (some "u")
        (some "did:feedo:0xW")
        "GET"
        "/count?namespace=n")
      (new_router none)
      7
    ≡ (ok (feedo_headers "did:feedo:0xW" "7" "FeedoAction:GET:/count:7"), new_router none, 7)
unfolding before_query to_string truthy request_headers run
request_headers_test = refl

before_query-documents_path_test :
    before_query (documents_path ethers none none none 50 0 "all" (some "a?b") none) ≡ "/documents"
before_query-documents_path_test =
    before_query-documents_path ethers none none none 50 0 "all" (some "a?b") none
