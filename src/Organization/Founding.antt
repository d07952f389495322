-- ===== src/Organization/Founding.antt =====
-- A new organization comes with its default roles, and its founder is its owner.
use multi_tenant_authorizati.Base.{
  ℕ, suc, ◌≡◌, refl, sym, subst, inl, inr, Bool, true, false, ◌&&◌, ◌==◌, Option, none, some, List,
  [], ◌∷◌, arith, String, if◌then◌else◌, Bool-cases, Option-cases,
}
use multi_tenant_authorizati.Db.Rows.{exists_row, first_row, select, is_value, Unique}
use multi_tenant_authorizati.Db.Schema.{
  Uuid, OrganizationType, OrganizationStatus, Role, RoleKind, Db, owner, admin, member, viewer,
  custom, is_owner, kind_eq,
}
use multi_tenant_authorizati.Db.Go.{Moment, moment}
use multi_tenant_authorizati.Db.Provision.{
  clone_roles, copy_role, has_name, provision_default_roles, is_template,
}
use multi_tenant_authorizati.Db.Ensures.{
  Ensures, Ensures-bind, Ensures-query_row, Ensures-weaken, Ensures-pure,
}
use multi_tenant_authorizati.Membership.Repository.{role_kind}
use multi_tenant_authorizati.Membership.Valid.{same_role}
use multi_tenant_authorizati.Membership.Guards.{IsOwner}
use multi_tenant_authorizati.Organization.Repository.{
  role_of_kind, create, get_role_id_by_kind, add_owner_membership, bootstrap,
}

-- PRIMARY KEY of roles.
abbrev pub UniqueRoles : Db → Type 0
UniqueRoles d = Unique same_role d.roles

-- The copies of the templates have identifiers of their own.
clone_roles-Unique :
    (t : Moment) (k : ℕ) (org : Uuid) (templates roles roles' : List Role)
    → Unique same_role roles
    → clone_roles t k org templates roles ≡ some roles'
    → Unique same_role roles'
unfolding clone_roles
clone_roles-Unique t k org [] roles roles' u h = subst (Unique same_role) (ground arith) u
clone_roles-Unique t k org (x ∷ rest) roles roles' u h =
    elim (Bool-cases (exists_row (has_name org x) roles)) [
      | inl named ↦ clone_roles-Unique t (suc k) org rest roles roles' u (ground arith)
      | inr unnamed ↦ elim (Bool-cases (exists_row (λ (r : Role). r.id == t.fresh k) roles)) [
        | inl taken ↦ ground arith
        | inr free ↦
            clone_roles-Unique t (suc k) org rest (copy_role t k org x ∷ roles) roles' (free, u)
              (ground arith)
      ]
    ]

owner_of_eq : (k : RoleKind) → kind_eq k owner ≡ true → is_owner k ≡ true
owner_of_eq owner h = refl
owner_of_eq admin h = cc
owner_of_eq member h = cc
owner_of_eq viewer h = cc
owner_of_eq custom h = cc

-- The test of GetRoleIDByKind for the owner's role.
abbrev owner_role : Uuid → Role → Bool
owner_role org r = is_value (λ o. o == org) r.organization_id && kind_eq r.kind owner

abbrev owner_role_id : Uuid → List Role → Option Uuid
owner_role_id org = first_row (λ (r : Role). if owner_role org r then some r.id else none)

owner_role-stored :
    (org r : Uuid) (rs : List Role)
    → owner_role_id org rs ≡ some r
    → exists_row (λ (x : Role). x.id == r) rs ≡ true
owner_role-stored org r [] h = cc
owner_role-stored org r (x ∷ rs) h = ground (arith, owner_role-stored org r rs)

absent-ne :
    (x : Role) (r : Uuid) (rs : List Role)
    → exists_row (same_role x) rs ≡ false
    → exists_row (λ (y : Role). y.id == r) rs ≡ true
    → (x.id == r) ≡ false
absent-ne x r [] h s = cc
absent-ne x r (y ∷ rs) h s = ground (arith, absent-ne x r rs)

owner_role-kind :
    (org r : Uuid) (rs : List Role)
    → Unique same_role rs
    → owner_role_id org rs ≡ some r
    → (k : RoleKind) × (role_kind rs r ≡ some k) × (is_owner k ≡ true)
owner_role-kind org r [] u h = absurd (cc)
owner_role-kind org r (x ∷ rs) u h = elim (Bool-cases (owner_role org x)) [
  | inl hit ↦ (x.kind, ground arith, owner_of_eq x.kind (ground arith))
  | inr miss ↦
      let q = owner_role-kind org r rs u.1 (ground arith) in
      (q.0, ground (arith, absent-ne x r rs u.0 (owner_role-stored org r rs (ground arith))), q.2)
]

pub provision-Unique :
    (t : Moment) (org : Uuid) (d d' : Db)
    → UniqueRoles d
    → provision_default_roles t org d ≡ some d'
    → UniqueRoles d'
unfolding provision_default_roles
provision-Unique t org d d' u h =
    elim (Option-cases (clone_roles t 1 org (select is_template d.roles) d.roles)) [
      | inl failed ↦ ground arith
      | inr (roles, cloned) ↦
          subst (Unique same_role) (ground arith)
            (clone_roles-Unique t 1 org (select is_template d.roles) d.roles roles u cloned)
    ]

-- The row that Create inserts.
abbrev pub with_organization : String → OrganizationType → Moment → Db → Db
with_organization name org_type t d = record d {
  organizations =
      record {
        id = t.fresh 0;
        name = name;
        org_type = org_type;
        slug = none;
        status = OrganizationStatus.active;
        created_at = t.now;
        updated_at = t.now;
      }
      ∷ d.organizations;
}

create-Ensures :
    (name : String) (org_type : OrganizationType)
    → Ensures UniqueRoles (create name org_type) (λ _ d. UniqueRoles d)
unfolding create
create-Ensures name org_type = record {
  at = λ e w a p h.
      let t = moment e w.step in
      elim (Option-cases
        (provision_default_roles t (t.fresh 0) (with_organization name org_type t w.db))) [
          | inl failed ↦ ground arith
          | inr (d', made) ↦
              let kept =
                provision-Unique t (t.fresh 0) (with_organization name org_type t w.db) d' p made in
              ground arith
        ];
}

get_role_id_by_kind-Ensures :
    (org : Uuid)
    → Ensures UniqueRoles
        (get_role_id_by_kind org owner)
        (λ r d. UniqueRoles d × (role_of_kind org owner d ≡ some r))
unfolding get_role_id_by_kind
get_role_id_by_kind-Ensures org = Ensures-query_row _ _

add_owner_membership-Ensures :
    (org user r : Uuid) (k : RoleKind)
    → Ensures
        (λ d. (role_kind d.roles r ≡ some k) × (is_owner k ≡ true))
        (add_owner_membership org user r)
        (λ _ d. IsOwner org user d)
unfolding add_owner_membership
add_owner_membership-Ensures org user r k = record { at = λ e w a p h. (k, ground arith, p.1) }

-- The founder of an organization is its owner.
pub bootstrap-IsOwner :
    (name : String) (org_type : OrganizationType) (user : Uuid)
    → Ensures UniqueRoles (bootstrap name org_type user) (λ org d. IsOwner org user d)
unfolding bootstrap
bootstrap-IsOwner name org_type user = Ensures-bind (create-Ensures name org_type) λ org.
    Ensures-bind (get_role_id_by_kind-Ensures org) λ r.
      Ensures-bind (added org r) λ _.
        Ensures-weaken (λ o d q. subst (λ x. IsOwner x user d) (sym q.1) q.0) (Ensures-pure org)
  where
    added :
        (org r : Uuid)
        → Ensures
            (λ d. UniqueRoles d × (role_of_kind org owner d ≡ some r))
            (add_owner_membership org user r)
            (λ _ d. IsOwner org user d)
    added org r = record {
      at = λ e w a p h.
          let q = owner_role-kind org r w.db.roles p.0 p.1 in
          (add_owner_membership-Ensures org user r q.0).at e w a (q.1, q.2) h;
    }
