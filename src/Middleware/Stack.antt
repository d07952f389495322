-- ===== src/Middleware/Stack.antt =====
-- internal/middleware/recovery.go, requestlogger.go and bodylimit.go, and the stack that
-- cmd/main.go builds around the API.
use multi_tenant_authorizati.Base.{ℕ, ◌*◌, String, some, List, [], ◌∷◌, ◌++◌, str_eq, if◌then◌else◌}
use multi_tenant_authorizati.Db.Go.{Go, pure, ◌>>=◌}
use multi_tenant_authorizati.Http.{Request, header, with_request_id}
use multi_tenant_authorizati.Http.Response.{error}
use multi_tenant_authorizati.Middleware.Headers.{
  Served, Wrapped, written, panicked, under_headers, security_headers, cors,
}

abbrev pub recovered : Served → Served
recovered (written r) = written r
recovered (panicked hs) =
    let r = error 500 "internal_error" "Something went wrong" in
    written (record r { headers = hs ++ r.headers })

-- The line in the log is left out.
unfoldable pub recovery : Wrapped → Wrapped
recovery next r = do s ← next r; pure (recovered s)

-- `new_string` stands for NewString of github.com/google/uuid.
abbrev pub request_id_of : Go String → Request → Go String
request_id_of new_string r =
    if str_eq (header "X-Request-ID" r) "" then new_string else pure (header "X-Request-ID" r)

-- The line in the log is left out.
unfoldable pub request_logger : Go String → Wrapped → Wrapped
request_logger new_string next r = do
  request_id ← request_id_of new_string r
  under_headers (("X-Request-ID", request_id) ∷ []) (next (with_request_id request_id r))

abbrev pub max_body_bytes : ℕ
max_body_bytes = 64 * 1024

-- The server's requests have a body, be it empty.
unfoldable pub body_limit : Wrapped → Wrapped
body_limit next r = next (record r { max_body = some max_body_bytes })

-- `apiStack` of cmd/main.go.
unfoldable pub api_stack : Go String → List String → Wrapped → Wrapped
api_stack new_string allowed_origins api =
    recovery (request_logger new_string (security_headers (cors allowed_origins (body_limit api))))
