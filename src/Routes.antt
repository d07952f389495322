-- ===== src/Routes.antt =====
-- internal/routes/routes.go: every route of the API with the middleware around its handler.
pub mod Guarded
use multi_tenant_authorizati.Base.{
  String, Bool, true, false, Option, none, some, List, [], ◌∷◌, if◌then◌else◌,
}
use multi_tenant_authorizati.Db.Schema.{Uuid, Digest}
use multi_tenant_authorizati.Db.Go.{Go, Env, World, pure, ◌>>=◌}
use multi_tenant_authorizati.Apperrors.{Result, ok, err}
use multi_tenant_authorizati.Http.{Request, path_value}
use multi_tenant_authorizati.Http.Response.{Response, error}
use multi_tenant_authorizati.Utils.{client_ip}
use multi_tenant_authorizati.Middleware.Auth.{Handler, authn, authz}

-- The handlers that the router calls.
pub data Endpoint : Type 0 where
  login register refresh logout logout_all list_sessions accept : Endpoint
  create_org list_mine get_org update_org delete_org : Endpoint
  list_members invite remove assign_role rotate_invite leave : Endpoint
  list_roles list_audit_logs list_decisions : Endpoint

-- The two limiters of cmd/main.go, by the key that a route passes in.
pub data Limiter : Type 0 where
  by_ip by_org : Limiter

-- What the router is built from: the handlers, `Allow` of the two rate limiters at a key with the
-- tokens that were left before it, in decimal, and the standard library's net.SplitHostPort.
pub record Dependencies : Type 0 where
  pub handler : Endpoint → Handler
  pub allow : Limiter → String → Go (Bool × String)
  pub split_host_port : String → Option String
  pub parse : String → Option Uuid
  pub sha256 : String → Digest

abbrev rate_limited : Response
rate_limited = record (error 429 "rate_limited" "Too many requests, please try again later") {
  headers = ("Retry-After", "60") ∷ ("Content-Type", "application/json") ∷ [];
}

-- The header that `RateLimiter.Middleware` sets on every response.
abbrev pub announce : String → Result Response × World → Result Response × World
announce left (ok a, w) =
    (ok (record a { headers = ("X-RateLimit-Remaining", left) ∷ a.headers }), w)
announce left (err x, w) = (err x, w)

module _ (d : Dependencies) where
  abbrev pub key : Limiter → Request → String
  key by_ip r = client_ip d.split_host_port r
  key by_org r = path_value "org_id" r

  abbrev pub admitted : Handler → Request → Bool × String → Go Response
  admitted next r (true, left) e w = announce left (next r e w)
  admitted next r (false, left) e w = announce left (ok rate_limited, w)

  -- `RateLimiter.Middleware`
  abbrev pub limit : Limiter → Handler → Handler
  limit l next r = do allowed ← d.allow l (key l r); admitted next r allowed

  -- The chain of the routes that check a permission.
  abbrev pub protected : String → Endpoint → Handler
  protected permission e = limit by_org (authn d.sha256 (authz d.parse permission (d.handler e)))

  -- One for each `mux.Handle`.
  unfoldable pub route : Endpoint → Handler
  route login = limit by_ip (d.handler login)
  route register = limit by_ip (d.handler register)
  route refresh = limit by_ip (d.handler refresh)
  route logout = authn d.sha256 (d.handler logout)
  route logout_all = authn d.sha256 (d.handler logout_all)
  route list_sessions = authn d.sha256 (d.handler list_sessions)
  route accept = limit by_ip (authn d.sha256 (d.handler accept))
  route create_org = authn d.sha256 (d.handler create_org)
  route list_mine = authn d.sha256 (d.handler list_mine)
  route get_org = protected "org.view" get_org
  route update_org = protected "org.update" update_org
  route delete_org = protected "org.delete" delete_org
  route list_members = protected "member.view" list_members
  route invite = protected "member.invite" invite
  route remove = protected "member.remove" remove
  route assign_role = protected "member.assign_role" assign_role
  route rotate_invite = protected "member.invite" rotate_invite
  route leave = limit by_org (authn d.sha256 (d.handler leave))
  route list_roles = protected "role.view" list_roles
  route list_audit_logs = protected "audit_log.view" list_audit_logs
  route list_decisions = protected "audit_log.view" list_decisions
