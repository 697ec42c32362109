-- ===== src/Middleware/Headers.antt =====
-- middleware/security.go: the headers of every response.
use modex_cloud.Prelude.{List, [], ◌∷◌, if◌then◌else◌, ◌==◌, text_eq}
use modex_cloud.Text.{Text, text}

abbrev pub Header : Type 0
Header = List (Text × Text)

-- `Header.Set`: one value for a name.
unfoldable pub set_header : Text → Text → Header → Header
set_header name value [] = (name, value) ∷ []
set_header name value ((k, v) ∷ h) =
    if k == name then (name, value) ∷ h else (k, v) ∷ set_header name value h

-- `SecurityHeaders`, before the handlers that follow.
unfoldable pub security_headers : Header → Header
unfolding set_header
security_headers h = set_header (text "Cross-Origin-Opener-Policy") (text "same-origin") (
    set_header (text "Referrer-Policy") (text "no-referrer") (
      set_header (text "X-Frame-Options") (text "DENY")
        (set_header (text "X-Content-Type-Options") (text "nosniff") h)))
