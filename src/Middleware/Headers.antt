-- ===== src/Middleware/Headers.antt =====
-- internal/middleware/cors.go and securityheaders.go: the headers around a response.
use multi_tenant_authorizati.Base.{
  String, Bool, true, false, ◌&&◌, not, List, [], ◌∷◌, ◌++◌, str_eq, if◌then◌else◌,
}
use multi_tenant_authorizati.Db.Rows.{exists_row}
use multi_tenant_authorizati.Db.Go.{Go, pure, ◌>>=◌}
use multi_tenant_authorizati.Http.{header, Request}
use multi_tenant_authorizati.Http.Response.{Response, no_content}

-- What a handler comes to: a response, or a panic behind the headers that were set before it. A
-- handler that panics after it has written is left out.
pub data Served : Type 0 where
  written : Response → Served
  panicked : List (String × String) → Served

abbrev pub Wrapped : Type 0
Wrapped = Request → Go Served

abbrev pub headers_of : Served → List (String × String)
headers_of (written r) = r.headers
headers_of (panicked hs) = hs

-- Headers that a wrapper has set before the handler writes. A name that is set again later in the
-- list is replaced.
abbrev pub add_headers : List (String × String) → Served → Served
add_headers hs (written r) = written (record r { headers = hs ++ r.headers })
add_headers hs (panicked hs') = panicked (hs ++ hs')

abbrev pub under_headers : List (String × String) → Go Served → Go Served
under_headers hs m = do r ← m; pure (add_headers hs r)

abbrev pub security_list : List (String × String)
security_list =
    ("X-Content-Type-Options", "nosniff")
    ∷ ("X-Frame-Options", "DENY")
    ∷ ("Referrer-Policy", "strict-origin-when-cross-origin")
    ∷ ("Strict-Transport-Security", "max-age=63072000; includeSubDomains")
    ∷ ("Content-Security-Policy", "default-src 'none'; frame-ancestors 'none'")
    ∷ ("X-XSS-Protection", "1; mode=block")
    ∷ []

unfoldable pub security_headers : Wrapped → Wrapped
security_headers next r = under_headers security_list (next r)

-- `origin != "" && allowed[origin]`
unfoldable pub is_allowed_origin : List String → String → Bool
is_allowed_origin allowed origin =
    not (str_eq origin "") && exists_row (λ (o : String). str_eq o origin) allowed

abbrev pub origin_headers : Bool → String → List (String × String)
origin_headers false origin = []
origin_headers true origin =
    ("Access-Control-Allow-Origin", origin)
    ∷ ("Access-Control-Allow-Credentials", "true")
    ∷ ("Vary", "Origin")
    ∷ []

abbrev pub preflight_list : List (String × String)
preflight_list =
    ("Access-Control-Allow-Methods", "GET, POST, PUT, PATCH, DELETE, OPTIONS")
    ∷ ("Access-Control-Allow-Headers", "Content-Type, Authorization, X-CSRF-Token")
    ∷ []

unfoldable pub cors : List String → Wrapped → Wrapped
unfolding is_allowed_origin
cors allowed next r =
    under_headers
      (origin_headers (is_allowed_origin allowed (header "Origin" r)) (header "Origin" r))
      (if str_eq r.method "OPTIONS"
        then pure (add_headers preflight_list (written no_content))
        else next r)
