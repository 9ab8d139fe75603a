-- ===== src/Sandbox/Tests.antt =====
-- Paths of a site that is kept under the id "Qm1".
use feedo.Base.{◌≡◌, refl, truthy, none}
use feedo.Sandbox.{sandbox_key, get_mime_type, handle_fetch, missing}

get_mime_type_test : get_mime_type (λ s. s) "a.min.js" ≡ "application/javascript"
unfolding get_mime_type
get_mime_type_test = refl

directory_test : sandbox_key "/sandbox/Qm1/docs/" ≡ "Qm1/docs/index.html"
unfolding sandbox_key truthy
directory_test = refl

outside_test :
    handle_fetch (λ url. "/search") (λ s. s) "" (λ key. missing) "https://feedo.ink/search" ≡ none
unfolding handle_fetch
outside_test = refl
