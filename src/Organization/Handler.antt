-- ===== src/Organization/Handler.antt =====
-- internal/organization/handler.go.
use multi_tenant_authorizati.Base.{String, Option}
use multi_tenant_authorizati.Apperrors.{unauthorized, invalid_request_body, organization_id_invalid}
use multi_tenant_authorizati.Db.Schema.{Uuid}
use multi_tenant_authorizati.Db.Go.{Go, pure}
use multi_tenant_authorizati.Db.Driver.{Driver}
use multi_tenant_authorizati.Http.{Request, path_value}
use multi_tenant_authorizati.Http.Response.{
  Response, success, handle_error, nothing, organization, organizations,
}
use multi_tenant_authorizati.Http.Handler.{Codec, or_respond, or_handle, identified, with_body}
use multi_tenant_authorizati.Organization.Service.{
  create_organization, list_organizations, get_organization, rename_organization,
  delete_organization,
}

-- CreateOrgRequest and UpdateOrgRequest.
pub record NameRequest : Type 0 where
  pub name : String

module _ (parse : String → Option Uuid) (pg : Driver) (body : Codec NameRequest) where
  abbrev pub org_of : Request → (Uuid → Go Response) → Go Response
  org_of r = or_respond (parse (path_value "org_id" r)) (handle_error organization_id_invalid)

  -- Authn only; the caller becomes the owner.
  unfoldable handle_create : Request → Go Response
  handle_create r = or_respond r.context.user_id (handle_error unauthorized) λ user.
      with_body body r (handle_error invalid_request_body) λ req.
        or_handle (create_organization pg user req.name)
          λ org. pure (success 201 "organization created" (organization org))

  unfoldable handle_list_mine : Request → Go Response
  handle_list_mine r = identified r.context.user_id λ user.
      or_handle (list_organizations user)
        λ orgs. pure (success 200 "organizations retrieved" (organizations orgs))

  unfoldable handle_get : Request → Go Response
  handle_get r = org_of r λ org.
      or_handle (get_organization org)
        λ o. pure (success 200 "organization retrieved" (organization o))

  unfoldable handle_update : Request → Go Response
  handle_update r = org_of r λ org. with_body body r (handle_error invalid_request_body) λ req.
      or_handle (rename_organization org req.name)
        λ o. pure (success 200 "organization updated" (organization o))

  unfoldable handle_delete : Request → Go Response
  handle_delete r = org_of r λ org.
      or_handle (delete_organization org) λ _. pure (success 204 "organization deleted" nothing)
