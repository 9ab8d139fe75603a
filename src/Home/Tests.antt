-- ===== src/Home/Tests.antt =====
-- A search with a character that is escaped.
use feedo.Base.{◌≡◌, refl, some, truthy}
use feedo.Text.{encode_uri_component, is_unreserved, is_alphanumeric, is_mark}
use feedo.Home.{initial_home, set_query, handle_search}

search_test : (handle_search (λ s. s) (set_query "a&b" initial_home)).route ≡ some "/search?q=a%26b"
unfolding handle_search set_query encode_uri_component truthy is_unreserved is_alphanumeric is_mark
search_test = refl
