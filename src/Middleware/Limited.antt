-- ===== src/Middleware/Limited.antt =====
-- The stack of cmd/main.go: what every request of the API is known to have.
use mathlib.Core.Path.{fun_ext}
use multi_tenant_authorizati.Base.{
  ◌≡◌, refl, ap, String, some, List, ◌∷◌, [], str_eq, if◌then◌else◌, Bool, true, false,
}
use multi_tenant_authorizati.Db.Go.{Go, pure, ◌>>=◌}
use multi_tenant_authorizati.Http.{Request, header, with_request_id}
use multi_tenant_authorizati.Http.Response.{no_content}
use multi_tenant_authorizati.Middleware.Headers.{
  Wrapped, written, add_headers, under_headers, security_list, preflight_list, security_headers,
  is_allowed_origin, origin_headers, cors, Served,
}
use multi_tenant_authorizati.Middleware.Stack.{
  recovered, recovery, request_id_of, request_logger, max_body_bytes, body_limit, api_stack,
}

-- The body is bounded, and the request has an identifier and is no preflight.
abbrev pub Prepared : Request → Type 0
Prepared r =
    (r.max_body ≡ some max_body_bytes)
    × ((i : String) × (r.context.request_id ≡ some i))
    × (str_eq r.method "OPTIONS" ≡ false)

module _ (allowed : List String) (api api' : Wrapped)
    (agree : (r : Request) → Prepared r → api r ≡ api' r) where
  cors-agrees :
      (r : Request) (i : String)
      → r.context.request_id ≡ some i
      → cors allowed (body_limit api) r ≡ cors allowed (body_limit api') r
  unfolding cors body_limit
  cors-agrees r i known =
      ap
        (under_headers
          (origin_headers (is_allowed_origin allowed (header "Origin" r)) (header "Origin" r)))
        (answered (str_eq r.method "OPTIONS") refl)
    where
      answered :
          (b : Bool)
          → str_eq r.method "OPTIONS" ≡ b
          → (if b
              then pure (add_headers preflight_list (written no_content))
              else api (record r { max_body = some max_body_bytes }))
            ≡ (if b
                then pure (add_headers preflight_list (written no_content))
                else api' (record r { max_body = some max_body_bytes }))
      answered true p = refl
      answered false p = agree (record r { max_body = some max_body_bytes }) (refl, (i, known), p)

  -- The API sees prepared requests only: two APIs that agree on them are told apart by no request.
  pub api_stack-Prepared :
      (new_string : Go String) (r : Request)
      → api_stack new_string allowed api r ≡ api_stack new_string allowed api' r
  unfolding api_stack recovery request_logger security_headers
  api_stack-Prepared new_string r =
      ap
        (λ (f : String → Go Served). (request_id_of new_string r >>= f) >>= λ s. pure (recovered s))
        (fun_ext λ id.
          ap (λ m. under_headers (("X-Request-ID", id) ∷ []) (under_headers security_list m))
            (cors-agrees (with_request_id id r) id refl))
