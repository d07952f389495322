-- ===== src/Auth/Cookies.antt =====
-- internal/auth/cookies.go and csrf.go.
use multi_tenant_authorizati.Base.{
  String, Bool, true, false, ◌&&◌, not, Option, none, some, ◌∷◌, str_eq,
}
use multi_tenant_authorizati.Apperrors.{external}
use multi_tenant_authorizati.Db.Schema.{Time}
use multi_tenant_authorizati.Db.Go.{Go, random_text}
use multi_tenant_authorizati.Http.{Request, header, cookie_in}
use multi_tenant_authorizati.Http.Response.{Cookie, Response}

unfoldable pub new_csrf_token : Go String
new_csrf_token = random_text external

abbrev auth_cookie : String → String → Bool → Option Time → Cookie
auth_cookie name value http_only expires = record {
  name = name;
  value = value;
  path = "/v1/auth";
  http_only = http_only;
  secure = true;
  same_site_strict = true;
  expires = expires;
}

-- Both cookies together.
unfoldable pub set_auth_cookies : String → String → Time → Response → Response
set_auth_cookies refresh_token csrf_token expires_at r = record r {
  cookies =
      auth_cookie "refresh_token" refresh_token true (some expires_at)
      ∷ auth_cookie "csrf_token" csrf_token false (some expires_at)
      ∷ r.cookies;
}

unfoldable pub clear_auth_cookies : Response → Response
clear_auth_cookies r = record r {
  cookies =
      auth_cookie "refresh_token" "" true none ∷ auth_cookie "csrf_token" "" false none ∷ r.cookies;
}

abbrev pub matches_header : Option String → String → Bool
matches_header none h = false
matches_header (some c) h = not (str_eq c "") && not (str_eq h "") && str_eq c h

-- The double-submit check; ConstantTimeCompare is equality.
unfoldable pub verify_csrf : Request → Bool
verify_csrf r = matches_header (cookie_in "csrf_token" r.cookies) (header "X-CSRF-Token" r)
