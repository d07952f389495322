-- ===== src/System/Provisioned.antt =====
-- The roles that the trigger adds take nothing from the roles that are there.
use multi_tenant_authorizati.Membership.Owners.{same_member}
use multi_tenant_authorizati.Base.{
  ℕ, suc, ◌≤◌, ◌≡◌, subst, inl, inr, true, false, ◌==◌, some, List, [], ◌∷◌, arith, Bool-cases,
  Option-cases, sym,
}
use multi_tenant_authorizati.Db.Rows.{exists_row, select, All, Unique, count_rows}
use multi_tenant_authorizati.Db.RowLaws.{map-All, count-le-count}
use multi_tenant_authorizati.Db.Schema.{Uuid, Role, RoleKind, Membership, Db}
use multi_tenant_authorizati.Db.Go.{Moment}
use multi_tenant_authorizati.Db.Provision.{
  clone_roles, copy_role, has_name, provision_default_roles, is_template,
}
use multi_tenant_authorizati.Membership.Repository.{
  role_kind, role_in_org, is_active_owner, active_owners,
}
use multi_tenant_authorizati.Membership.Valid.{
  IsValid, same_role, same_token, RoleInOrg, InviteInOrg,
}

-- A role that is there is found with the same kind, and in the same organization.
abbrev pub Extends : List Role → List Role → Type 0
Extends roles roles' =
    ((r : Uuid) (k : RoleKind) → role_kind roles r ≡ some k → role_kind roles' r ≡ some k)
    × ((org r : Uuid) → role_in_org roles org r ≡ true → role_in_org roles' org r ≡ true)

role_kind-fresh :
    (i r : Uuid) (k : RoleKind) (roles : List Role)
    → exists_row (λ (x : Role). x.id == i) roles ≡ false
    → role_kind roles r ≡ some k
    → (i == r) ≡ false
role_kind-fresh i r k [] h e = cc
role_kind-fresh i r k (x ∷ roles) h e = elim (Bool-cases (x.id == r)) [
  | inl hit ↦ ground arith
  | inr miss ↦ ground (arith, role_kind-fresh i r k roles)
]

-- A role under an identifier that is free.
cons-Extends :
    (x : Role) (roles : List Role)
    → exists_row (λ (y : Role). y.id == x.id) roles ≡ false
    → Extends roles (x ∷ roles)
cons-Extends x roles free =
    (λ r k h. ground (arith, role_kind-fresh x.id r k roles free h), λ org r h. ground arith)

clone_roles-Extends :
    (t : Moment) (k : ℕ) (org : Uuid) (templates roles roles' : List Role)
    → clone_roles t k org templates roles ≡ some roles'
    → Extends roles roles'
unfolding clone_roles
clone_roles-Extends t k org [] roles roles' h =
    let same : roles ≡ roles' = ground arith in
    subst (Extends roles) same (λ r k e. e, λ org r e. e)
clone_roles-Extends t k org (x ∷ rest) roles roles' h =
    elim (Bool-cases (exists_row (has_name org x) roles)) [
      | inl named ↦ clone_roles-Extends t (suc k) org rest roles roles' (ground arith)
      | inr unnamed ↦ elim (Bool-cases (exists_row (λ (r : Role). r.id == t.fresh k) roles)) [
        | inl taken ↦ absurd (ground arith)
        | inr free ↦
            let first = cons-Extends (copy_role t k org x) roles free in
            let later =
              clone_roles-Extends t (suc k) org rest (copy_role t k org x ∷ roles) roles'
                (ground arith) in
            (λ r k e. later.0 r k (first.0 r k e), λ org r e. later.1 org r (first.1 org r e))
      ]
    ]

-- No owner is lost.
active_owners-Extends :
    (roles roles' : List Role) (org : Uuid) (ms : List Membership)
    → Extends roles roles'
    → count_rows (is_active_owner roles org) ms ≤ count_rows (is_active_owner roles' org) ms
active_owners-Extends roles roles' org ms x =
    count-le-count (is_active_owner roles org) (is_active_owner roles' org) (still x) ms
  where
    still :
        Extends roles roles'
        → (m : Membership) → is_active_owner roles org m ≡ true
        → is_active_owner roles' org m ≡ true
    still x m h = elim (Option-cases (role_kind roles m.role_id)) [
      | inl missing ↦ absurd (ground arith)
      | inr (k, found) ↦ ground (arith, x.0 m.role_id k found)
    ]

-- What the trigger leaves: the other tables, and every role.
pub record Provisions (d d' : Db) : Type 0 where
  pub extends : Extends d.roles d'.roles
  pub memberships : d'.memberships ≡ d.memberships
  pub invitations : d'.invitations ≡ d.invitations
  pub organizations : d'.organizations ≡ d.organizations

pub provision-Provisions :
    (t : Moment) (org : Uuid) (d d' : Db)
    → provision_default_roles t org d ≡ some d'
    → Provisions d d'
unfolding provision_default_roles
provision-Provisions t org d d' h =
    elim (Option-cases (clone_roles t 1 org (select is_template d.roles) d.roles)) [
      | inl failed ↦ absurd (ground arith)
      | inr (roles, cloned) ↦
          let same : roles ≡ d'.roles = ground arith in
          record {
            extends =
                subst (Extends d.roles) same
                  (clone_roles-Extends t 1 org (select is_template d.roles) d.roles roles cloned);
            memberships = ground arith;
            invitations = ground arith;
            organizations = ground arith;
          }
    ]

-- The constraints hold of the other tables with more roles.
pub Provisions-IsValid :
    (d d' : Db) → Provisions d d' → Unique same_role d'.roles → IsValid d → IsValid d'
Provisions-IsValid d d' p u v = record {
  unique_roles = u;
  unique_members = subst (Unique same_member) (sym p.memberships) v.unique_members;
  roles_in_org =
      subst (All (RoleInOrg d'.roles)) (sym p.memberships)
        (map-All (λ m h. p.extends.1 m.organization_id m.role_id h) d.memberships v.roles_in_org);
  unique_tokens = subst (Unique same_token) (sym p.invitations) v.unique_tokens;
  invites_in_org =
      subst (All (InviteInOrg d'.roles)) (sym p.invitations)
        (map-All (λ i h. p.extends.1 i.organization_id i.role_id h) d.invitations v.invites_in_org);
}

pub Provisions-owners :
    (d d' : Db) (org : Uuid) → Provisions d d' → active_owners org d ≤ active_owners org d'
Provisions-owners d d' org p =
    rw (p.memberships) (active_owners-Extends d.roles d'.roles org d.memberships p.extends)
