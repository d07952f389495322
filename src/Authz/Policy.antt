-- ===== src/Authz/Policy.antt =====
-- The policy that the permission query stands for: rows that vouch for a user, by the relations of
-- the schema.
use multi_tenant_authorizati.Base.{
  ◌≡◌, sym, subst, ◌↔◌, true, ◌&&◌, String, str_eq, eq_iff, ◌==◌, arith,
}
use multi_tenant_authorizati.Db.Stored.{Stored, found_row, row_found}
use multi_tenant_authorizati.Db.Schema.{
  Uuid, Organization, Permission, RolePermission, Membership, Db, org_active, member_active,
}
use multi_tenant_authorizati.Authz.{grants_key, role_grants, org_is_active, allows}

-- The organization is active.
abbrev IsActiveOrg : Uuid → Db → Type 0
IsActiveOrg org d =
    (o : Organization) × Stored o d.organizations × (o.id ≡ org) × (org_active o.status ≡ true)

-- The role has a grant of the permission of that name.
abbrev pub Grants : Uuid → String → Db → Type 0
Grants role key d =
    (g : RolePermission) × Stored g d.role_permissions
    × (g.role_id ≡ role)
    × (p : Permission) × Stored p d.permissions
    × (p.id ≡ g.permission_id)
    × (p.key ≡ key)

-- The user has an active membership of the organization, which is active, in a role with the grant.
abbrev pub MayDo : Uuid → Uuid → String → Db → Type 0
MayDo user org key d =
    (m : Membership) × Stored m d.memberships
    × (m.user_id ≡ user)
    × (m.organization_id ≡ org)
    × (member_active m.status ≡ true)
    × IsActiveOrg org d
    × Grants m.role_id key d

org_is_active_sound : (d : Db) (org : Uuid) → org_is_active d org ≡ true → IsActiveOrg org d
org_is_active_sound d org h =
    let q =
      found_row (λ (o : Organization). o.id == org && org_active o.status) d.organizations h in
    (q.0, q.1, ground arith, ground arith)

role_grants_sound :
    (d : Db) (role : Uuid) (key : String) → role_grants d role key ≡ true → Grants role key d
role_grants_sound d role key h =
    let q =
      found_row (λ (g : RolePermission). g.role_id == role && grants_key d.permissions key g)
        d.role_permissions h in
    let known : grants_key d.permissions key q.0 ≡ true = ground arith in
    let r =
      found_row (λ (p : Permission). p.id == q.0.permission_id && str_eq p.key key) d.permissions
        known in
    (q.0, q.1, ground arith, r.0, r.1, ground arith, (eq_iff r.0.key key).0 (ground arith))

allows_sound :
    (user org : Uuid) (key : String) (d : Db) → allows user org key d ≡ true → MayDo user org key d
allows_sound user org key d h =
    let q =
      found_row
        (λ (m : Membership).
          m.user_id == user
          && m.organization_id == org
          && member_active m.status
          && org_is_active d m.organization_id
          && role_grants d m.role_id key)
        d.memberships h in
    (
      q.0,
      q.1,
      ground arith,
      ground arith,
      ground arith,
      subst (λ o. IsActiveOrg o d) (ground arith)
          (org_is_active_sound d q.0.organization_id (ground arith)),
      role_grants_sound d q.0.role_id key (ground arith),
    )

org_is_active_complete : (d : Db) (org : Uuid) → IsActiveOrg org d → org_is_active d org ≡ true
org_is_active_complete d org (o, stored, same, live) =
    row_found (λ (x : Organization). x.id == org && org_active x.status) o d.organizations stored
      (ground arith)

role_grants_complete :
    (d : Db) (role : Uuid) (key : String) → Grants role key d → role_grants d role key ≡ true
role_grants_complete d role key (g, stored, same, p, known, its, named) =
    let k : grants_key d.permissions key g ≡ true =
      row_found (λ (x : Permission). x.id == g.permission_id && str_eq x.key key) p d.permissions
        known (ground (arith, (eq_iff p.key key).1 named)) in
    row_found (λ (x : RolePermission). x.role_id == role && grants_key d.permissions key x) g
      d.role_permissions stored (ground arith)

allows_complete :
    (user org : Uuid) (key : String) (d : Db) → MayDo user org key d → allows user org key d ≡ true
allows_complete user org key d (m, stored, his, there, live, active, grants) =
    row_found
      (λ (x : Membership).
        x.user_id == user
        && x.organization_id == org
        && member_active x.status
        && org_is_active d x.organization_id
        && role_grants d x.role_id key)
      m d.memberships stored
      (ground (
        arith,
        org_is_active_complete d m.organization_id
            (subst (λ o. IsActiveOrg o d) (sym there) active),
        role_grants_complete d m.role_id key grants,
      ))

-- The permission query answers yes exactly if the policy lets the user act: by an active membership
-- of the organization, which is active, in a role that is granted a permission of that name.
pub allows_iff :
    (user org : Uuid) (key : String) (d : Db)
    → (allows user org key d ≡ true) ↔ MayDo user org key d
allows_iff user org key d = (allows_sound user org key d, allows_complete user org key d)
