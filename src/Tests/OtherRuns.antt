-- ===== src/Tests/OtherRuns.antt =====
-- The guards, the organizations and the small helpers, at the small database.
use multi_tenant_authorizati.Base.{
  ℕ, zero, suc, ◌≡◌, ◌↔◌, refl, String, str_eq, true, false, Option, some, none, List, [], ◌∷◌, ◌⊎◌,
  if◌then◌else◌,
}
use multi_tenant_authorizati.Apperrors.{ok}
use multi_tenant_authorizati.Db.Schema.{
  AuditLog, Uuid, Organization, OrganizationType, OrganizationStatus, is_personal,
}
use multi_tenant_authorizati.Db.Go.{World, pure}
use multi_tenant_authorizati.Db.Rows.{exists_row}
use multi_tenant_authorizati.Http.{Request, background}
use multi_tenant_authorizati.Http.Response.{error, no_content}
use multi_tenant_authorizati.Authz.{allows}
use multi_tenant_authorizati.Authz.Policy.{MayDo, allows_iff}
use multi_tenant_authorizati.Middleware.Auth.{Handler}
use multi_tenant_authorizati.Middleware.RateLimit.{Bucket, Visitors}
use multi_tenant_authorizati.Routes.{Endpoint, Dependencies, route}
use multi_tenant_authorizati.Routes.Guarded.{Enters, route-guards}
use multi_tenant_authorizati.Membership.Guards.{IsOwner}
use multi_tenant_authorizati.Db.Provision.{
  provision_default_roles, clone_roles, template_grants, add_grants, grants_of, grants_to,
}
use multi_tenant_authorizati.Organization.Repository.{
  bootstrap, create, get_role_id_by_kind, add_owner_membership, get_by_id, soft_delete, live_org,
  is_invite_of,
}
use multi_tenant_authorizati.Organization.Service.{create_organization, delete_organization}
use multi_tenant_authorizati.Organization.Founded.{create_organization-IsOwner}
use multi_tenant_authorizati.Organization.Deletion.{
  Shut, soft_delete-Shut, delete_organization-Shut,
}
use multi_tenant_authorizati.Authz.{list_for_org}
use multi_tenant_authorizati.Trail.{list_audit_logs}
use multi_tenant_authorizati.Tests.Fixtures.{quiet, digest, plain, database, world}

abbrev created : Organization
created = record {
  id = 100;
  name = "New";
  org_type = OrganizationType.business;
  slug = none;
  status = OrganizationStatus.active;
  created_at = 1000;
  updated_at = 1000;
}

founded : (create_organization plain 13 "New" quiet world).0 ≡ ok created
unfolding create_organization bootstrap create get_role_id_by_kind add_owner_membership
    provision_default_roles clone_roles template_grants add_grants grants_of grants_to get_by_id
founded = refl

create_organization-IsOwner_example :
    IsOwner 100 13 (create_organization plain 13 "New" quiet world).1.db
create_organization-IsOwner_example =
    create_organization-IsOwner plain 13 "New" created quiet world
      (refl, (refl, (refl, (refl, tt)))) founded

soft_delete-Shut_example :
    ((soft_delete 1 quiet world).0 ≡ ok tt) × Shut 1 (soft_delete 1 quiet world).1.db
soft_delete-Shut_example = soft_delete-Shut 1 quiet world refl

deleted : (delete_organization 1 quiet world).0 ≡ ok tt
unfolding delete_organization get_by_id soft_delete
deleted = refl

delete_organization-Shut_example :
    ((o : Organization) × (live_org 1 (database false) ≡ some o) × (is_personal o.org_type ≡ false))
    × (allows 10 1 "member.view" (delete_organization 1 quiet world).1.db ≡ false)
    × (exists_row (is_invite_of 1) (delete_organization 1 quiet world).1.db.invitations ≡ false)
delete_organization-Shut_example = delete_organization-Shut 1 10 "member.view" quiet world deleted

allows_iff_example :
    (allows 10 1 "member.view" (database false) ≡ true) ↔ MayDo 10 1 "member.view" (database false)
allows_iff_example = allows_iff 10 1 "member.view" (database false)

abbrev request : Request
request = record {
  method = "GET";
  headers = ("Authorization", "Bearer access") ∷ [];
  cookies = [];
  path_values = ("org_id", "1") ∷ [];
  query = ("limit", "500") ∷ [];
  remote_addr = "10.0.0.1:80";
  max_body = none;
  context = background;
}

abbrev parse : String → Option Uuid
parse s = if str_eq s "1" then some 1 else none

abbrev silent : Handler
silent r = pure no_content

abbrev loud : Handler
loud r = pure (error 500 "boom" "boom")

abbrev dependencies : Dependencies
dependencies = record {
  handler = λ _. silent;
  allow = λ _ _. pure (true, "9");
  split_host_port = λ s. some s;
  parse = parse;
  sha256 = digest;
}

route-guards_example :
    (route dependencies Endpoint.list_members request quiet world
      ≡ route
          (record dependencies { handler = λ _. loud })
          Endpoint.list_members
          request
          quiet
          world)
    ⊎ Enters dependencies "member.view" request quiet world
route-guards_example =
    route-guards dependencies (λ _. loud) "member.view" Endpoint.list_members request quiet world
      refl

-- A bucket of three tokens that is never refilled.
abbrev three : Bucket
three = record {
  Limiter = ℕ;
  new_limiter = 3;
  allow = λ t n. elim n [ zero ↦ (false, 0) | suc m ↦ (true, m) ];
}

abbrev visitors : Visitors three
visitors = ("a", record { limiter = 2; last_seen = 900 }) ∷ []

abbrev origins : List String
origins = "https://app.example" ∷ []

decisions_read : (list_for_org 1 10 0 quiet world).0 ≡ ok []
unfolding list_for_org
decisions_read = refl

abbrev entry : AuditLog
entry = record {
  id = 90;
  organization_id = some 1;
  user_id = none;
  action = "organization.updated";
  entity_type = "organization";
  entity_id = none;
  metadata = [];
  ip_address = "";
  user_agent = "";
  created_at = 5;
}

-- Two entries, of which one is another organization's.
abbrev logged : World
logged = record {
  db = record world.db { audit_logs = entry ∷ record entry { organization_id = some 2 } ∷ [] };
  step = 0;
}

logs_read : (list_audit_logs 1 10 0 quiet logged).0 ≡ ok (entry ∷ [])
unfolding list_audit_logs
logs_read = refl
