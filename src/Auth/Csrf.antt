-- ===== src/Auth/Csrf.antt =====
-- The double-submit check of the Refresh handler (internal/auth/cookies.go).
use multi_tenant_authorizati.Base.{
  ◌≡◌, refl, sym, ◌⊎◌, inl, inr, true, false, Option, some, none, String, str_eq, eq_iff, arith,
  Bool-cases,
}
use multi_tenant_authorizati.Apperrors.{ok}
use multi_tenant_authorizati.Db.Schema.{Digest}
use multi_tenant_authorizati.Db.Go.{Env, World}
use multi_tenant_authorizati.Db.Driver.{Driver}
use multi_tenant_authorizati.Normalize.{Phonebook}
use multi_tenant_authorizati.Http.{Request, header, cookie_in}
use multi_tenant_authorizati.Http.Response.{error}
use multi_tenant_authorizati.Auth.Service.{Passwords, TokenTtl}
use multi_tenant_authorizati.Auth.Cookies.{verify_csrf, matches_header}
use multi_tenant_authorizati.Auth.Handler.{handle_refresh}

-- The request repeats in a header the text of its cookie, which is not empty.
abbrev pub DoubleSubmits : Request → Type 0
DoubleSubmits r =
    (token : String) × (cookie_in "csrf_token" r.cookies ≡ some token)
    × (header "X-CSRF-Token" r ≡ token)
    × (str_eq token "" ≡ false)

matches :
    (o : Option String) (h : String)
    → matches_header o h ≡ true
    → (token : String) × (o ≡ some token) × (h ≡ token) × (str_eq token "" ≡ false)
matches none h m = absurd (cc)
matches (some t) h m = (t, refl, sym ((eq_iff t h).0 (ground arith)), ground arith)

-- Refresh acts only on a request that repeats its CSRF cookie in the header, which another site
-- cannot do: any other request gets status 403, and changes nothing.
pub handle_refresh-guards :
    (lib : Phonebook) (split_host_port : String → Option String) (sha256 : String → Digest)
    (ttl : TokenTtl) (passwords : Passwords) (pg : Driver) (r : Request) (e : Env) (w : World)
    → (handle_refresh lib split_host_port sha256 ttl passwords pg r e w
        ≡ (ok (error 403 "csrf_check_failed" "CSRF validation failed"), w))
      ⊎ DoubleSubmits r
unfolding handle_refresh verify_csrf
handle_refresh-guards lib split_host_port sha256 ttl passwords pg r e w =
    elim (Bool-cases (verify_csrf r)) [
      | inl fits ↦ inr (matches (cookie_in "csrf_token" r.cookies) (header "X-CSRF-Token" r) fits)
      | inr fails ↦ inl (ground arith)
    ]
