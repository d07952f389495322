-- ===== src/Organization/Repository.antt =====
-- internal/organization/repository.go, query by query.
use multi_tenant_authorizati.Base.{
  ℕ, String, Bool, ◌&&◌, not, Option, none, some, List, ◌∷◌, ◌==◌, if◌then◌else◌,
}
use multi_tenant_authorizati.Apperrors.{organization_not_found, database}
use multi_tenant_authorizati.Db.Rows.{
  exists_row, count_rows, update_rows, first_row, select, order_by, is_value,
}
use multi_tenant_authorizati.Db.Schema.{
  Uuid, Organization, OrganizationStatus, OrganizationType, Role, RoleKind, Membership, Invitation,
  InviteStatus, Db, owner, org_active, org_deleted, member_active, invite_active, kind_eq,
}
use multi_tenant_authorizati.Db.Go.{
  Go, pure, raise_if, ◌>>=◌, ◌>>◌, Statement, row, no_rows, unique_violation, failed, statement,
  query_row, query_rows, exec_rows, scan,
}
use multi_tenant_authorizati.Db.Provision.{provision_default_roles}
use multi_tenant_authorizati.Membership.Repository.{insert_membership}

-- `WHERE id = $1 AND status != 'deleted'`
abbrev pub is_live : Uuid → Organization → Bool
is_live org o = o.id == org && not (org_deleted o.status)

abbrev pub live_org : Uuid → Db → Option Organization
live_org org d =
    first_row (λ (o : Organization). if is_live org o then some o else none) d.organizations

unfoldable pub get_by_id : Uuid → Go Organization
get_by_id org = query_row organization_not_found (live_org org)

-- The trigger organizations_updated_at writes updated_at.
abbrev rename : Uuid → String → Statement Unit Organization
rename org name t d =
    let renamed = record d {
      organizations =
          update_rows (is_live org)
            (λ (o : Organization). record o { name = name; updated_at = t.now }) d.organizations;
    } in
    elim (live_org org renamed) [ none ↦ (no_rows, renamed) | some o ↦ (row o, renamed) ]

unfoldable pub update_name : Uuid → String → Go Organization
update_name org name = do scan organization_not_found (← statement (rename org name))

abbrev pub is_invite_of : Uuid → Invitation → Bool
is_invite_of org i = i.organization_id == org && invite_active i.status

abbrev pub is_active_org : Uuid → Organization → Bool
is_active_org org o = o.id == org && org_active o.status

-- Both updates run, whatever the rows of the other.
abbrev pub delete_org : Uuid → Statement Unit ℕ
delete_org org t d = (
  row (count_rows (is_active_org org) d.organizations),
  record d {
    invitations =
        update_rows (is_invite_of org)
          (λ (i : Invitation). record i { status = InviteStatus.revoked }) d.invitations;
    organizations =
        update_rows (is_active_org org)
          (λ (o : Organization). record o {
            status = OrganizationStatus.deleted;
            updated_at = t.now;
          })
          d.organizations;
  },
)

unfoldable pub soft_delete : Uuid → Go Unit
soft_delete org = do
  affected ← exec_rows (delete_org org)
  raise_if (affected == 0) organization_not_found

-- The insert, and the trigger organizations_provision_roles.
abbrev insert_organization : String → OrganizationType → Statement Unit Uuid
insert_organization name org_type t d =
    if exists_row (λ (o : Organization). o.id == t.fresh 0) d.organizations
    then (unique_violation tt, d)
    else elim (provision_default_roles t (t.fresh 0) (record d {
      organizations =
          record {
            id = t.fresh 0;
            name = name;
            org_type = org_type;
            slug = none;
            status = OrganizationStatus.active;
            created_at = t.now;
            updated_at = t.now;
          }
          ∷ d.organizations;
    })) [ none ↦ (failed, d) | some d' ↦ (row (t.fresh 0), d') ]

unfoldable pub create : String → OrganizationType → Go Uuid
create name org_type = do scan database (← statement (insert_organization name org_type))

-- JOIN memberships m ON m.organization_id = o.id; UNIQUE(user_id, organization_id) leaves one row
-- of the join at most for each organization.
abbrev is_member_org : Db → Uuid → Organization → Bool
is_member_org d user o =
    exists_row
      (λ (m : Membership). m.organization_id == o.id && m.user_id == user && member_active m.status)
      d.memberships
    && not (org_deleted o.status)

unfoldable pub list_for_user : Uuid → Go (List Organization)
list_for_user user = query_rows λ d.
    order_by (λ (o : Organization). o.created_at) (select (is_member_org d user) d.organizations)

abbrev pub role_of_kind : Uuid → RoleKind → Db → Option Uuid
role_of_kind org kind d =
    first_row
      (λ (r : Role).
        if is_value (λ o. o == org) r.organization_id && kind_eq r.kind kind
        then some r.id
        else none)
      d.roles

-- No role is ErrDatabase here, as is any other error.
unfoldable pub get_role_id_by_kind : Uuid → RoleKind → Go Uuid
get_role_id_by_kind org kind = query_row database (role_of_kind org kind)

unfoldable pub add_owner_membership : Uuid → Uuid → Uuid → Go Unit
add_owner_membership org user r = do scan database (← statement (insert_membership org user r))

unfoldable pub bootstrap : String → OrganizationType → Uuid → Go Uuid
bootstrap name org_type owner_user = do
  org ← create name org_type
  owner_role ← get_role_id_by_kind org owner
  add_owner_membership org owner_user owner_role
  pure org
