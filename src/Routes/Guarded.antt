-- ===== src/Routes/Guarded.antt =====
-- The permissions of the routes of internal/routes/routes.go, as the router enforces them.
use multi_tenant_authorizati.Base.{
  suc, ◌≡◌, refl, ◌⊎◌, inl, Bool, true, false, String, Option, none, some, ap, inr,
}
use multi_tenant_authorizati.Db.Go.{Env, World}
use multi_tenant_authorizati.Apperrors.{Result, ok, err}
use multi_tenant_authorizati.Http.{Request, path_value}
use multi_tenant_authorizati.Http.Response.{Response}
use multi_tenant_authorizati.Middleware.Auth.{Handler, authn, authz}
use multi_tenant_authorizati.Middleware.Guards.{Authorized, protected-guards}
use multi_tenant_authorizati.Routes.{
  Endpoint, by_org, Dependencies, admitted, announce, protected, route,
}

-- The permission that an endpoint is meant to need; none where a sign-in suffices or none is
-- needed.
abbrev pub permission : Endpoint → Option String
permission Endpoint.get_org = some "org.view"
permission Endpoint.update_org = some "org.update"
permission Endpoint.delete_org = some "org.delete"
permission Endpoint.list_members = some "member.view"
permission Endpoint.invite = some "member.invite"
permission Endpoint.remove = some "member.remove"
permission Endpoint.assign_role = some "member.assign_role"
permission Endpoint.rotate_invite = some "member.invite"
permission Endpoint.list_roles = some "role.view"
permission Endpoint.list_audit_logs = some "audit_log.view"
permission Endpoint.list_decisions = some "audit_log.view"
permission _ = none

route-protected :
    (d : Dependencies) (ep : Endpoint) (key : String)
    → permission ep ≡ some key
    → route d ep ≡ protected d key ep
unfolding route
route-protected d Endpoint.get_org key h = cc
route-protected d Endpoint.update_org key h = cc
route-protected d Endpoint.delete_org key h = cc
route-protected d Endpoint.list_members key h = cc
route-protected d Endpoint.invite key h = cc
route-protected d Endpoint.remove key h = cc
route-protected d Endpoint.assign_role key h = cc
route-protected d Endpoint.rotate_invite key h = cc
route-protected d Endpoint.list_roles key h = cc
route-protected d Endpoint.list_audit_logs key h = cc
route-protected d Endpoint.list_decisions key h = cc
route-protected d _ key h = cc

-- The world after the limiter has been asked for the organization of the path.
abbrev limited : Dependencies → Request → Env → World → World
limited d r e w = (d.allow by_org (path_value "org_id" r) e w).1

-- Authorized at the world that the limiter leaves.
abbrev pub Enters : Dependencies → String → Request → Env → World → Type 0
Enters d key r e w =
    Authorized d.sha256 d.parse key r (e.clock (suc (limited d r e w).step)) (limited d r e w).db

module _ (d : Dependencies) (h : Endpoint → Handler) (key : String) (ep : Endpoint) (r : Request)
    (e : Env) where
  limit-guards :
      (q : Result (Bool × String) × World)
      → ((elim q.0 as (λ _. Result Response × World) [
        | ok a ↦ admitted d (authn d.sha256 (authz d.parse key (d.handler ep))) r a e q.1
        | err x ↦ (err x, q.1)
      ])
          ≡ (elim q.0 as (λ _. Result Response × World) [
            | ok a ↦ admitted d (authn d.sha256 (authz d.parse key (h ep))) r a e q.1
            | err x ↦ (err x, q.1)
          ]))
        ⊎ Authorized d.sha256 d.parse key r (e.clock (suc q.1.step)) q.1.db
  limit-guards (err x, w) = inl refl
  limit-guards (ok (false, left), w) = inl refl
  limit-guards (ok (true, left), w) =
      elim (protected-guards d.sha256 d.parse key (d.handler ep) (h ep) r e w) [
        | inl same ↦ inl (ap (announce left) same)
        | inr allowed ↦ inr allowed
      ]

  -- A request reaches the handler of an endpoint with a permission only if it is authorized for
  -- exactly that permission: otherwise the route answers the same with any other handlers in place.
  pub route-guards :
      (w : World)
      → permission ep ≡ some key
      → (route d ep r e w ≡ route (record d { handler = h }) ep r e w) ⊎ Enters d key r e w
  route-guards w needs = rw (route-protected d ep key needs) (
      rw (route-protected (record d { handler = h }) ep key needs)
        (limit-guards (d.allow by_org (path_value "org_id" r) e w)))
