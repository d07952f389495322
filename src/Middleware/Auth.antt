-- ===== src/Middleware/Auth.antt =====
-- internal/middleware/authn.go and authz.go.
use multi_tenant_authorizati.Base.{
  String, Bool, true, false, Option, none, some, str_eq, if◌then◌else◌,
}
use multi_tenant_authorizati.Apperrors.{Error, invalid_token, Result, ok, err}
use multi_tenant_authorizati.Text.{strip_prefix, trim_space}
use multi_tenant_authorizati.Db.Schema.{Uuid, Digest, Session}
use multi_tenant_authorizati.Db.Go.{Go, pure, ◌>>=◌, try}
use multi_tenant_authorizati.Http.{
  Request, header, path_value, with_user_id, with_session_id, with_org_id,
}
use multi_tenant_authorizati.Http.Response.{Response, error}
use multi_tenant_authorizati.Auth.Repository.{get_active_session_by_access_token_hash}
use multi_tenant_authorizati.Authz.{check_permission, record_decision}

-- A handler writes one response; failures are responses too.
abbrev pub Handler : Type 0
Handler = Request → Go Response

-- None for a missing or malformed header.
abbrev non_empty : String → Option String
non_empty t = if str_eq t "" then none else some t

unfoldable pub bearer_token : Request → Option String
bearer_token r = elim (strip_prefix "Bearer " (header "Authorization" r)) [
  | none ↦ none
  | some t ↦ non_empty (trim_space t)
]

abbrev authn_error : Error → Response
authn_error invalid_token = error 401 "invalid_token" "Invalid or expired session"
authn_error _ = error 500 "internal_error" "Something went wrong"

abbrev pub authenticated : Handler → Request → Result Session → Go Response
authenticated next r (err x) = pure (authn_error x)
authenticated next r (ok s) = next (with_session_id s.id (with_user_id s.user_id r))

abbrev pub authn_token : (String → Digest) → Handler → Request → Option String → Go Response
authn_token sha256 next r none =
    pure (error 401 "missing_token" "Authorization header with a bearer token is required")
authn_token sha256 next r (some token) = do
  session ← try (get_active_session_by_access_token_hash (sha256 token))
  authenticated next r session

unfoldable pub authn : (String → Digest) → Handler → Handler
authn sha256 next r = authn_token sha256 next r (bearer_token r)

abbrev pub missing_identity : Response
missing_identity = error 401 "missing_identity" "Authentication required"

abbrev pub invalid_org_id : Response
invalid_org_id = error 400 "invalid_org_id" "Invalid organization ID"

abbrev forbidden : Response
forbidden = error 403 "forbidden" "You do not have permission to perform this action"

abbrev reason_for : Bool → String
reason_for true = "role grants permission"
reason_for false = "role lacks permission"

-- A failed write of the decision is logged, and does not change the outcome.
abbrev decide : Handler → Request → String → Uuid → Uuid → Result Bool → Go Response
decide next r key user org (err _) = pure (error 500 "internal_error" "Something went wrong")
decide next r key user org (ok allowed) = do
  _ ← try (
      record_decision (record {
        organization_id = org;
        user_id = user;
        permission_key = key;
        allowed = allowed;
        reason = reason_for allowed;
      }))
  if allowed then next (with_org_id org r) else pure forbidden

abbrev pub authorize : Handler → Request → String → Option Uuid → Option Uuid → Go Response
authorize next r key none org = pure missing_identity
authorize next r key (some user) none = pure invalid_org_id
authorize next r key (some user) (some org) = do
  allowed ← try (check_permission user org key)
  decide next r key user org allowed

-- `parse` stands for uuid.Parse of github.com/google/uuid.
unfoldable pub authz : (String → Option Uuid) → String → Handler → Handler
authz parse key next r = authorize next r key r.context.user_id (parse (path_value "org_id" r))
