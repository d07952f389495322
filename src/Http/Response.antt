-- ===== src/Http/Response.antt =====
-- internal/response: what a handler writes, and which response an error becomes.
use multi_tenant_authorizati.Base.{ℕ, String, Bool, Option, List, [], ◌∷◌}
use multi_tenant_authorizati.Apperrors
use multi_tenant_authorizati.Apperrors.{Error}
use multi_tenant_authorizati.Db.Schema.{Uuid, Time, Organization, Role, AuditLog, AuthzDecision}
use multi_tenant_authorizati.Membership.Repository.{Member}
use multi_tenant_authorizati.Auth.Service.{UserInfo, OrganizationInfo}

-- auth.SessionResponse
pub record SessionResponse : Type 0 where
  pub id : Uuid
  pub user_agent : String
  pub ip_address : String
  pub created_at : Time
  pub expires_at : Time
  pub current : Bool

-- The `data` of a success.
pub data Payload : Type 0 where
  nothing : Payload
  members : List Member → Payload
  -- InviteResponse: token, role_id, expires_at
  invite_response : String → String → Time → Payload
  organization_id : Uuid → Payload
  organization : Organization → Payload
  organizations : List Organization → Payload
  roles : List Role → Payload
  audit_logs : List AuditLog → Payload
  decisions : List AuthzDecision → Payload
  -- access_token, expires_at, csrf_token, user, organization
  register_response : String → Time → String → UserInfo → OrganizationInfo → Payload
  login_response : String → Time → String → UserInfo → Payload
  refresh_response : String → Time → String → Payload
  sessions : List SessionResponse → Payload
  -- status, time
  health : String → Time → Payload

pub data Body : Type 0 where
  no_body : Body
  -- SuccessResponse: message, data
  success_body : String → Payload → Body
  -- ErrorResponse: code, message
  error_body : String → String → Body
  -- ValidationErrorResponse: the fields
  validation_body : List (String × String) → Body

pub record Cookie : Type 0 where
  pub name : String
  pub value : String
  pub path : String
  pub http_only : Bool
  pub secure : Bool
  pub same_site_strict : Bool
  -- none deletes the cookie at once (MaxAge -1)
  pub expires : Option Time

pub record Response : Type 0 where
  pub status : ℕ
  pub headers : List (String × String)
  pub cookies : List Cookie
  pub body : Body

-- `response.Error`
abbrev pub error : ℕ → String → String → Response
error status code message = record {
  status = status;
  headers = ("Content-Type", "application/json") ∷ [];
  cookies = [];
  body = error_body code message;
}

abbrev pub validation_error : List (String × String) → Response
validation_error fields = record {
  status = 400;
  headers = ("Content-Type", "application/json") ∷ [];
  cookies = [];
  body = validation_body fields;
}

abbrev pub success : ℕ → String → Payload → Response
success status message payload = record {
  status = status;
  headers = ("Content-Type", "application/json") ∷ [];
  cookies = [];
  body = success_body message payload;
}

-- `w.WriteHeader(http.StatusNoContent)`
abbrev pub no_content : Response
no_content = record { status = 204; headers = []; cookies = []; body = no_body }

unfoldable pub handle_error : Error → Response
handle_error Apperrors.invalid_credentials =
    error 401 "invalid_credentials" "invalid email or password"
handle_error Apperrors.unauthorized = error 401 "unauthorized" "authentication required"
handle_error Apperrors.invalid_token = error 401 "invalid_token" "invalid token"
handle_error Apperrors.email_already_exists =
    error 409 "email_already_exists" "email already exists"
handle_error Apperrors.phone_already_exists =
    error 409 "phone_already_exists" "phone already exists"
handle_error Apperrors.user_suspended = error 403 "user_suspended" "user suspended"
handle_error Apperrors.organization_not_found =
    error 404 "organization_not_found" "organization not found"
handle_error Apperrors.organization_id_invalid =
    error 400 "invalid_organization_id" "organization id is invalid"
handle_error Apperrors.last_owner = error 409 "last_owner" "last owner cannot be removed"
handle_error Apperrors.owner_action_restricted =
    error 403 "owner_action_restricted" "owner action restricted"
handle_error Apperrors.cannot_delete_personal_org =
    error 409 "cannot_delete_personal_org" "cannot delete personal organization"
handle_error Apperrors.membership_not_found =
    error 404 "membership_not_found" "membership not found"
handle_error Apperrors.membership_role_not_found =
    error 404 "membership_not_found" "membership not found"
handle_error Apperrors.already_member =
    error 409 "already_member" "user already belongs to organization"
handle_error Apperrors.invitation_not_found =
    error 404 "invitation_not_found" "invitation not found"
handle_error Apperrors.personal_workspace =
    error 409 "personal_workspace"
      "this is a personal workspace; create a new workspace to invite members"
handle_error Apperrors.invalid_request_body =
    error 400 "invalid_request_body" "request body is invalid"
handle_error Apperrors.user_identifier_invalid =
    error 400 "invalid_identifier" "phone or email is invalid"
handle_error _ = error 500 "internal_server_error" "internal server error"
