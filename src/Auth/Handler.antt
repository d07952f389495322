-- ===== src/Auth/Handler.antt =====
-- internal/auth/handler.go.
use multi_tenant_authorizati.Base.{
  String, Option, none, some, [], ◌∷◌, map, str_eq, ◌==◌, if◌then◌else◌,
}
use multi_tenant_authorizati.Apperrors.{Result, ok, err}
use multi_tenant_authorizati.Db.Schema.{Uuid, Digest}
use multi_tenant_authorizati.Db.Go.{Go, pure, ◌>>=◌, try}
use multi_tenant_authorizati.Db.Driver.{Driver}
use multi_tenant_authorizati.Normalize.{Phonebook, email, phone, identifier}
use multi_tenant_authorizati.Utils.{client_ip}
use multi_tenant_authorizati.Validation.{validate_struct}
use multi_tenant_authorizati.Http.{Request, header, cookie_in}
use multi_tenant_authorizati.Http.Response.{
  Response, error, success, no_content, validation_error, SessionResponse, register_response,
  login_response, refresh_response, sessions,
}
use multi_tenant_authorizati.Http.Handler.{
  Codec, or_respond, or_handle, identified, validated, invalid_request,
}
use multi_tenant_authorizati.Auth.Repository.{SessionSummary}
use multi_tenant_authorizati.Auth.Service.{
  Passwords, TokenTtl, TokenPair, register, login, refresh, logout, logout_all, list_sessions,
}
use multi_tenant_authorizati.Auth.Cookies.{
  new_csrf_token, set_auth_cookies, clear_auth_cookies, verify_csrf,
}

pub record RegisterRequest : Type 0 where
  pub email : String
  pub phone : String
  pub password : String
  pub first_name : String
  pub last_name : String

pub record LoginRequest : Type 0 where
  pub identifier : String
  pub password : String

abbrev pub user_agent : Request → String
user_agent r = header "User-Agent" r

-- `newCSRFToken`, whose failure has a response of its own.
abbrev csrf_or_error : Result String → (String → Go Response) → Go Response
csrf_or_error (err _) k = pure (error 500 "internal_error" "Something went wrong")
csrf_or_error (ok csrf) k = k csrf

-- The response behind the two cookies, with a new CSRF token.
abbrev with_cookies : TokenPair → (String → Response) → Go Response
with_cookies tokens respond = do
  csrf ← try new_csrf_token
  csrf_or_error csrf λ token.
      pure (
        set_auth_cookies tokens.refresh_token token tokens.refresh_token_expires_at (respond token))

module _ (lib : Phonebook) (split_host_port : String → Option String) (sha256 : String → Digest)
    (ttl : TokenTtl) (passwords : Passwords) (pg : Driver) where
  abbrev normalized_email : String → String
  normalized_email s = if str_eq s "" then s else email lib s

  abbrev normalized_phone : String → Option String
  normalized_phone s = if str_eq s "" then some s else phone lib s ""

  unfoldable register_with : Codec RegisterRequest → Request → RegisterRequest → Go Response
  register_with body r req = validated (validate_struct (body.violations req)) (
      or_handle
        (register sha256 ttl passwords pg (record {
          email = req.email;
          phone = req.phone;
          password = req.password;
          first_name = req.first_name;
          last_name = req.last_name;
          user_agent = user_agent r;
          ip_address = client_ip split_host_port r;
        }))
        λ result. with_cookies result.tokens λ csrf. success 201 "account created" (
          register_response result.tokens.access_token result.tokens.access_token_expires_at csrf
            result.user result.organization))

  unfoldable handle_register : Codec RegisterRequest → Request → Go Response
  unfolding register_with
  handle_register body r = or_respond (body.decode r) invalid_request λ req.
      or_respond (normalized_phone req.phone)
        (validation_error (("phone", "must be a valid phone number") ∷ []))
        λ number.
          register_with body r (record req { phone = number; email = normalized_email req.email })

  unfoldable login_with : Codec LoginRequest → Request → LoginRequest → Go Response
  login_with body r req = validated (validate_struct (body.violations req)) (
      or_handle
        (login sha256 ttl passwords (record {
          identifier = req.identifier;
          password = req.password;
          user_agent = user_agent r;
          ip_address = client_ip split_host_port r;
        }))
        λ result. with_cookies result.tokens λ csrf. success 200 "login successful" (
          login_response result.tokens.access_token result.tokens.access_token_expires_at csrf
            result.user))

  unfoldable handle_login : Codec LoginRequest → Request → Go Response
  unfolding login_with
  handle_login body r =
      or_respond (body.decode r) invalid_request
        λ req. login_with body r (record req { identifier = identifier lib req.identifier "NG" })

  abbrev refresh_with : Request → Option String → Go Response
  refresh_with r none = pure (error 401 "missing_token" "Refresh token is required")
  refresh_with r (some token) =
      if str_eq token ""
      then pure (error 401 "missing_token" "Refresh token is required")
      else or_handle
          (refresh sha256 ttl pg (record {
            refresh_token = token;
            user_agent = user_agent r;
            ip_address = client_ip split_host_port r;
          }))
          λ tokens. with_cookies tokens λ csrf.
            success 200 "token refreshed"
              (refresh_response tokens.access_token tokens.access_token_expires_at csrf)

  -- The CSRF check comes before the refresh token is read.
  unfoldable pub handle_refresh : Request → Go Response
  handle_refresh r =
      if verify_csrf r
      then refresh_with r (cookie_in "refresh_token" r.cookies)
      else pure (error 403 "csrf_check_failed" "CSRF validation failed")

unfoldable handle_logout : Request → Go Response
handle_logout r =
    identified r.context.session_id
      λ session. or_handle (logout session) λ _. pure (clear_auth_cookies no_content)

unfoldable handle_logout_all : Request → Go Response
handle_logout_all r =
    identified r.context.user_id
      λ user. or_handle (logout_all user) λ _. pure (clear_auth_cookies no_content)

-- A missing session is uuid.Nil, the number 0.
abbrev current_session : Option Uuid → Uuid
current_session none = 0
current_session (some s) = s

abbrev session_response : Uuid → SessionSummary → SessionResponse
session_response current s = record {
  id = s.id;
  user_agent = s.user_agent;
  ip_address = s.ip_address;
  created_at = s.created_at;
  expires_at = s.expires_at;
  current = s.id == current;
}

unfoldable handle_list_sessions : Request → Go Response
handle_list_sessions r = identified r.context.user_id λ user.
    or_handle (list_sessions user) λ found. pure (
      success 200 "sessions retrieved"
        (sessions (map (session_response (current_session r.context.session_id)) found)))
