-- ===== src/System/Tenants.antt =====
-- The calls of the organization service leave every organization governed.
use multi_tenant_authorizati.Base.{◌≡◌, refl, subst, inl, inr, String, List, arith, Bool-cases}
use multi_tenant_authorizati.Db.Rows.{All, Unique, update_rows}
use multi_tenant_authorizati.Db.RowLaws.{update-All}
use multi_tenant_authorizati.Db.Schema.{
  Uuid, Organization, OrganizationStatus, Invitation, InviteStatus, Db, business,
}
use multi_tenant_authorizati.Db.Driver.{Driver}
use multi_tenant_authorizati.Db.Keeps.{Keeps, keeps_rules}
use multi_tenant_authorizati.Membership.Valid.{
  InviteInOrg, same_token, close-Unique, close-InviteInOrg,
}
use multi_tenant_authorizati.Organization.Repository.{
  is_live, is_invite_of, is_active_org, update_name, soft_delete, get_by_id,
}
use multi_tenant_authorizati.Organization.Service.{
  create_organization, rename_organization, delete_organization,
}
use multi_tenant_authorizati.System.Governed.{IsGoverned, Owned, bootstrap-IsGoverned}
use multi_tenant_authorizati.System.Statements.{Keeps-transaction}

-- Rows of organizations and invitations that change otherwise than in what the constraints read.
with_rows :
    (d : Db) (os : List Organization) (is : List Invitation)
    → All (Owned d) os
    → Unique same_token is
    → All (InviteInOrg d.roles) is
    → IsGoverned d
    → IsGoverned (record d { organizations = os; invitations = is })
with_rows d os is owned unique in_org g = record {
  valid = record {
    unique_roles = g.valid.unique_roles;
    unique_members = g.valid.unique_members;
    roles_in_org = g.valid.roles_in_org;
    unique_tokens = unique;
    invites_in_org = in_org;
  };
  owned = owned;
}

update_name-IsGoverned : (org : Uuid) (name : String) → Keeps IsGoverned (update_name org name)
unfolding update_name
update_name-IsGoverned org name = record {
  at = λ e w g.
      let renamed : Organization → Organization =
        λ o. record o { name = name; updated_at = e.clock w.step } in
      let os = update_rows (is_live org) renamed w.db.organizations in
      elim (Bool-cases (e.fails w.step)) [
        | inl down ↦
            let same : w.db ≡ (update_name org name e w).1.db = ground arith in
            subst IsGoverned same g
        | inr up ↦
            let same : record w.db { organizations = os; invitations = w.db.invitations }
                ≡ (update_name org name e w).1.db =
              ground arith in
            subst IsGoverned same (
              with_rows w.db os w.db.invitations
                (update-All (is_live org) (Owned w.db) renamed (λ o _ h. h) w.db.organizations
                  g.owned)
                g.valid.unique_tokens g.valid.invites_in_org g)
      ];
}

soft_delete-IsGoverned : (org : Uuid) → Keeps IsGoverned (soft_delete org)
unfolding soft_delete
soft_delete-IsGoverned org = record {
  at = λ e w g.
      let deleted : Organization → Organization =
        λ o. record o { status = OrganizationStatus.deleted; updated_at = e.clock w.step } in
      let revoked : Invitation → Invitation = λ i. record i { status = InviteStatus.revoked } in
      let os = update_rows (is_active_org org) deleted w.db.organizations in
      let is = update_rows (is_invite_of org) revoked w.db.invitations in
      elim (Bool-cases (e.fails w.step)) [
        | inl down ↦
            let same : w.db ≡ (soft_delete org e w).1.db = ground arith in subst IsGoverned same g
        | inr up ↦
            let same : record w.db { organizations = os; invitations = is }
                ≡ (soft_delete org e w).1.db =
              ground arith in
            subst IsGoverned same (
              with_rows w.db os is
                (update-All (is_active_org org) (Owned w.db) deleted (λ o _ h. h) w.db.organizations
                  g.owned)
                (close-Unique InviteStatus.revoked refl (is_invite_of org) w.db.invitations
                  g.valid.unique_tokens)
                (close-InviteInOrg InviteStatus.revoked refl (is_invite_of org) w.db.roles
                  w.db.invitations g.valid.invites_in_org)
                g)
      ];
}

pub create_organization-IsGoverned :
    (pg : Driver) (user : Uuid) (name : String)
    → Keeps IsGoverned (create_organization pg user name)
unfolding create_organization get_by_id
create_organization-IsGoverned pg user name =
    search (keeps_rules, Keeps-transaction pg _ (bootstrap-IsGoverned name business user))

pub rename_organization-IsGoverned :
    (org : Uuid) (name : String) → Keeps IsGoverned (rename_organization org name)
unfolding rename_organization
rename_organization-IsGoverned org name = update_name-IsGoverned org name

pub delete_organization-IsGoverned : (org : Uuid) → Keeps IsGoverned (delete_organization org)
unfolding delete_organization get_by_id
delete_organization-IsGoverned org = search (keeps_rules, soft_delete-IsGoverned) depth 9
