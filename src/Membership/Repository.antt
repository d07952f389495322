-- ===== src/Membership/Repository.antt =====
-- internal/membership/repository.go, query by query, and the rows that it returns (types.go).
use multi_tenant_authorizati.Base.{
  ℕ, String, Bool, true, false, ◌&&◌, Option, none, some, List, ◌∷◌, ◌==◌, if◌then◌else◌,
}
use multi_tenant_authorizati.Apperrors.{
  invalid_token, organization_not_found, membership_not_found, membership_role_not_found,
  already_member, invitation_not_found, database,
}
use multi_tenant_authorizati.Db.Rows.{
  exists_row, count_rows, update_rows, delete_rows, first_row, join_rows, order_by, is_value,
  select,
}
use multi_tenant_authorizati.Db.Schema.{
  Uuid, Time, Digest, User, Organization, OrganizationType, OrganizationStatus, Role, RoleKind,
  Membership, MembershipStatus, Invitation, InviteStatus, Db, org_active, member_active,
  invite_active, is_owner,
}
use multi_tenant_authorizati.Db.Go.{
  Go, pure, raise, raise_if, ◌>>=◌, Statement, row, unique_violation, failed, Outcome, statement,
  query_row, query_rows, exec_rows, scan,
}

pub record Member : Type 0 where
  pub user_id : Uuid
  pub email : String
  pub first_name : String
  pub last_name : String
  pub role_id : Uuid
  pub role_name : String
  pub role_kind : RoleKind
  pub status : MembershipStatus
  pub joined_at : Time

-- `COALESCE(column, '')`
abbrev pub coalesce : Option String → String
coalesce none = ""
coalesce (some s) = s

abbrev role_by_id : Uuid → List Role → Option Role
role_by_id r = first_row (λ (x : Role). if x.id == r then some x else none)

abbrev user_by_id : Uuid → List User → Option User
user_by_id u = first_row (λ (x : User). if x.id == u then some x else none)

-- One row of the join of ListMembers.
abbrev member_view : Db → Membership → Option Member
member_view d m = elim (user_by_id m.user_id d.users) [
  | none ↦ none
  | some u ↦ elim (role_by_id m.role_id d.roles) [
    | none ↦ none
    | some r ↦ some (record {
      user_id = u.id;
      email = coalesce u.email;
      first_name = u.first_name;
      last_name = coalesce u.last_name;
      role_id = r.id;
      role_name = r.name;
      role_kind = r.kind;
      status = m.status;
      joined_at = m.joined_at;
    })
  ]
]

unfoldable pub list_members : Uuid → Go (List Member)
list_members org = query_rows λ d.
    order_by (λ (m : Member). m.joined_at)
      (join_rows (member_view d)
        (select (λ (m : Membership). m.organization_id == org) d.memberships))

-- `m.organization_id = $1 AND m.user_id = $2`
abbrev pub is_member : Uuid → Uuid → Membership → Bool
is_member org user m = m.organization_id == org && m.user_id == user

abbrev pub role_kind : List Role → Uuid → Option RoleKind
role_kind roles r = first_row (λ (x : Role). if x.id == r then some x.kind else none) roles

-- The kind of the role of the active membership of `user` in `org`.
abbrev pub kind_among : List Role → Uuid → Uuid → List Membership → Option RoleKind
kind_among roles org user = first_row λ (m : Membership).
    if is_member org user m && member_active m.status then role_kind roles m.role_id else none

abbrev pub member_kind : Uuid → Uuid → Db → Option RoleKind
member_kind org user d = kind_among d.roles org user d.memberships

unfoldable pub get_member_role_kind : Uuid → Uuid → Go RoleKind
get_member_role_kind org user = query_row membership_role_not_found (member_kind org user)

-- `id = $1 AND organization_id = $2`
abbrev pub is_role_of : Uuid → Uuid → Role → Bool
is_role_of org r x = x.id == r && is_value (λ o. o == org) x.organization_id

abbrev pub role_kind_in : Uuid → Uuid → Db → Option RoleKind
role_kind_in org r d =
    first_row (λ (x : Role). if is_role_of org r x then some x.kind else none) d.roles

unfoldable pub get_role_kind_by_id : Uuid → Uuid → Go RoleKind
get_role_kind_by_id org r = query_row membership_role_not_found (role_kind_in org r)

abbrev pub active_org_type : Uuid → Db → Option OrganizationType
active_org_type org d =
    first_row
      (λ (o : Organization). if o.id == org && org_active o.status then some o.org_type else none)
      d.organizations

unfoldable pub get_organization_type : Uuid → Go OrganizationType
get_organization_type org = query_row organization_not_found (active_org_type org)

abbrev pub org_status : Uuid → Db → Option OrganizationStatus
org_status org d =
    first_row (λ (o : Organization). if o.id == org then some o.status else none) d.organizations

unfoldable pub organization_status : Uuid → Go OrganizationStatus
organization_status org = query_row organization_not_found (org_status org)

abbrev pub is_active_owner : List Role → Uuid → Membership → Bool
is_active_owner roles org m =
    m.organization_id == org
    && is_value is_owner (role_kind roles m.role_id)
    && member_active m.status

abbrev pub active_owners : Uuid → Db → ℕ
active_owners org d = count_rows (is_active_owner d.roles org) d.memberships

-- The FOR UPDATE lock has no effect on a transaction that runs alone.
unfoldable pub count_active_owners : Uuid → Go ℕ
count_active_owners org = query_row database (λ d. some (active_owners org d))

abbrev delete_membership : Uuid → Uuid → Statement Unit ℕ
delete_membership org user t d = (
  row (count_rows (is_member org user) d.memberships),
  record d { memberships = delete_rows (is_member org user) d.memberships },
)

unfoldable pub remove_member : Uuid → Uuid → Go Unit
remove_member org user = do
  affected ← exec_rows (delete_membership org user)
  raise_if (affected == 0) membership_not_found

-- FOREIGN KEY (organization_id, role_id) REFERENCES roles(organization_id, id)
abbrev pub role_in_org : List Role → Uuid → Uuid → Bool
role_in_org roles org r = exists_row (is_role_of org r) roles

abbrev pub set_role : Uuid → Membership → Membership
set_role r m = record m { role_id = r }

-- The foreign key is checked for the rows that change.
abbrev update_membership_role : Uuid → Uuid → Uuid → Statement Unit ℕ
update_membership_role org user r t d =
    if exists_row (is_member org user) d.memberships
      && (if role_in_org d.roles org r then false else true)
    then (failed, d)
    else (
      row (count_rows (is_member org user) d.memberships),
      record d { memberships = update_rows (is_member org user) (set_role r) d.memberships },
    )

unfoldable pub update_member_role : Uuid → Uuid → Uuid → Go Unit
update_member_role org user r = do
  affected ← exec_rows (update_membership_role org user r)
  raise_if (affected == 0) membership_role_not_found

abbrev pub user_exists : Uuid → Db → Bool
user_exists u d = exists_row (λ (x : User). x.id == u) d.users

abbrev pub org_exists : Uuid → Db → Bool
org_exists org d = exists_row (λ (x : Organization). x.id == org) d.organizations

-- The constraints of the table: its primary key and UNIQUE(user_id, organization_id), then the
-- foreign keys.
abbrev pub insert_membership : Uuid → Uuid → Uuid → Statement Unit Unit
insert_membership org user r t d =
    if exists_row (λ (m : Membership). m.id == t.fresh 0) d.memberships
    then (unique_violation tt, d)
    else if exists_row (is_member org user) d.memberships
    then (unique_violation tt, d)
    else if role_in_org d.roles org r && user_exists user d && org_exists org d
    then (
      row tt,
      record d {
        memberships =
            record {
              id = t.fresh 0;
              user_id = user;
              organization_id = org;
              role_id = r;
              status = MembershipStatus.active;
              joined_at = t.now;
            }
            ∷ d.memberships;
      },
    )
    else (failed, d)

abbrev already_if_unique : Outcome Unit Unit → Go Unit
already_if_unique (row _) = pure tt
already_if_unique (unique_violation _) = raise already_member
already_if_unique _ = raise database

unfoldable pub create_membership : Uuid → Uuid → Uuid → Go Unit
create_membership org user r = do already_if_unique (← statement (insert_membership org user r))

-- idx_active_invite_token: one active invitation for a token.
abbrev pub has_active_token : Digest → Invitation → Bool
has_active_token token i = i.token == token && invite_active i.status

abbrev insert_invitation : Uuid → Uuid → Uuid → Digest → Time → Statement Unit Uuid
insert_invitation org r creator token expires t d =
    if exists_row (λ (i : Invitation). i.id == t.fresh 0) d.invitations
    then (unique_violation tt, d)
    else if exists_row (has_active_token token) d.invitations
    then (unique_violation tt, d)
    else if role_in_org d.roles org r && user_exists creator d && org_exists org d
    then (
      row (t.fresh 0),
      record d {
        invitations =
            record {
              id = t.fresh 0;
              organization_id = org;
              token = token;
              role_id = r;
              status = InviteStatus.active;
              created_by = creator;
              expires_at = expires;
            }
            ∷ d.invitations;
      },
    )
    else (failed, d)

unfoldable pub create_link_invitation : Uuid → Uuid → Uuid → Digest → Time → Go Uuid
create_link_invitation org r creator token expires = do
  scan database (← statement (insert_invitation org r creator token expires))

-- JOIN organizations o ON o.id = i.organization_id AND o.status = 'active'
abbrev pub in_active_org : Db → Invitation → Bool
in_active_org d i =
    exists_row (λ (o : Organization). o.id == i.organization_id && org_active o.status)
      d.organizations

abbrev pub active_invitation : Digest → Db → Option Invitation
active_invitation token d =
    first_row
      (λ (i : Invitation). if has_active_token token i && in_active_org d i then some i else none)
      d.invitations

unfoldable pub get_active_invitation_by_token_hash : Digest → Go Invitation
get_active_invitation_by_token_hash token = query_row invalid_token (active_invitation token)

abbrev pub invitation_in : Uuid → Uuid → Db → Option Invitation
invitation_in org id d =
    first_row
      (λ (i : Invitation).
        if i.id == id && i.organization_id == org && in_active_org d i then some i else none)
      d.invitations

unfoldable pub get_invitation_by_id : Uuid → Uuid → Go Invitation
get_invitation_by_id org id = query_row invitation_not_found (invitation_in org id)

-- `WHERE id = $1 AND status = 'active'`
abbrev pub is_active_invite : Uuid → Invitation → Bool
is_active_invite id i = i.id == id && invite_active i.status

abbrev set_invite_status : InviteStatus → Uuid → Statement Unit ℕ
set_invite_status s id t d = (
  row (count_rows (is_active_invite id) d.invitations),
  record d {
    invitations =
        update_rows (is_active_invite id) (λ (i : Invitation). record i { status = s })
          d.invitations;
  },
)

unfoldable pub revoke_invitation : Uuid → Go Unit
revoke_invitation id = do
  affected ← exec_rows (set_invite_status InviteStatus.revoked id)
  raise_if (affected == 0) invalid_token

unfoldable pub mark_invitation_accepted : Uuid → Go Unit
mark_invitation_accepted id = do
  affected ← exec_rows (set_invite_status InviteStatus.accepted id)
  raise_if (affected == 0) invalid_token
