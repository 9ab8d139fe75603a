-- ===== src/Home.antt =====
-- web/src/app/page.tsx: the start page, which sends a query to the page of Results.
pub mod Tests
use feedo.Base.{
  String, ◌<>◌, Option, none, some, Bool, true, false, ◌≡◌, refl, truthy, if◌then◌else◌,
}
use feedo.Text.{encode_uri_component, is_unreserved, is_alphanumeric, is_mark}

-- The state of the component, and the address that the router is told to go to.
pub record Home : Type 0 where
  pub query : String
  pub is_searching : Bool
  pub route : Option String

abbrev pub initial_home : Home
initial_home = record { query = ""; is_searching = false; route = none }

unfoldable pub set_query : String → Home → Home
set_query text home = record home { query = text }

-- `trim` is the host's.
unfoldable pub handle_search : (String → String) → Home → Home
unfolding truthy encode_uri_component
handle_search trim home =
    if truthy (trim home.query)
    then record home {
      is_searching = true;
      route = some ("/search?q=" <> encode_uri_component home.query);
    }
    else home
