-- ===== src/Membership/Handler.antt =====
-- internal/membership/handler.go.
use multi_tenant_authorizati.Base.{String, Option, str_eq, if◌then◌else◌}
use multi_tenant_authorizati.Db.Schema.{Uuid, Digest}
use multi_tenant_authorizati.Db.Go.{Go, pure}
use multi_tenant_authorizati.Db.Driver.{Driver}
use multi_tenant_authorizati.Http.{Request, path_value}
use multi_tenant_authorizati.Http.Response.{
  Response, error, success, no_content, members, invite_response, organization_id,
}
use multi_tenant_authorizati.Http.Handler.{
  Codec, or_respond, or_handle, identified, with_body, invalid_request,
}
use multi_tenant_authorizati.Membership.Service.{
  service_list_members, invite, accept, rotate_invite, leave, remove, assign_role,
}

-- The role_id of an InviteRequest or an AssignRoleRequest.
pub record RoleRequest : Type 0 where
  pub role_id : String

-- `parse` stands for uuid.Parse, `sha256` for the digest of auth.HashOpaqueToken.
module _ (parse : String → Option Uuid) (sha256 : String → Digest) (pg : Driver)
    (body : Codec RoleRequest) where
  abbrev path_id : String → Request → String → String → (Uuid → Go Response) → Go Response
  path_id name r code message = or_respond (parse (path_value name r)) (error 400 code message)

  abbrev pub org_of : Request → (Uuid → Go Response) → Go Response
  org_of r = path_id "org_id" r "invalid_org_id" "Invalid organization ID"

  abbrev target_of : Request → (Uuid → Go Response) → Go Response
  target_of r = path_id "user_id" r "invalid_user_id" "Invalid user ID"

  abbrev role_of : RoleRequest → (Uuid → Go Response) → Go Response
  role_of req = or_respond (parse req.role_id) (error 400 "invalid_role_id" "Invalid role ID")

  unfoldable pub handle_list : Request → Go Response
  handle_list r = org_of r λ org.
      or_handle (service_list_members org) λ ms. pure (success 200 "members retrieved" (members ms))

  unfoldable handle_invite : Request → Go Response
  handle_invite r = org_of r λ org. identified r.context.user_id λ inviter.
      with_body body r invalid_request λ req. role_of req λ role.
        or_handle (invite sha256 org inviter role) λ result. pure (
          success 201 "invitation created"
            (invite_response result.token req.role_id result.expires_at))

  -- Authn only: the invitation token resolves the organization.
  unfoldable handle_accept : Request → Go Response
  handle_accept r = identified r.context.user_id λ user.
      (if str_eq (path_value "token" r) ""
        then pure (error 400 "invalid_token" "Invitation token is required")
        else or_handle (accept sha256 pg user (path_value "token" r))
            λ org. pure (success 200 "invitation accepted" (organization_id org)))

  -- The response has no role_id.
  unfoldable handle_rotate_invite : Request → Go Response
  handle_rotate_invite r = org_of r λ org.
      path_id "invitation_id" r "invalid_invitation_id" "Invalid invitation ID" λ invitation.
        identified r.context.user_id λ actor.
          or_handle (rotate_invite sha256 pg org actor invitation) λ result.
            pure
              (success 200 "invitation rotated" (invite_response result.token "" result.expires_at))

  unfoldable handle_leave : Request → Go Response
  handle_leave r =
      org_of r λ org.
        identified r.context.user_id λ user. or_handle (leave pg org user) λ _. pure no_content

  unfoldable handle_remove : Request → Go Response
  handle_remove r = org_of r λ org. target_of r λ target.
      identified r.context.user_id
        λ actor. or_handle (remove pg org actor target) λ _. pure no_content

  unfoldable handle_assign_role : Request → Go Response
  handle_assign_role r = org_of r λ org. target_of r λ target. identified r.context.user_id λ actor.
      with_body body r invalid_request λ req.
        role_of req λ role. or_handle (assign_role pg org actor target role) λ _. pure no_content
