-- ===== src/Db/Provision.antt =====
-- provision_default_roles of migrations/000004_seed_org_defaults_function.up.sql, which a trigger
-- runs after each insert into organizations.
use multi_tenant_authorizati.Base.{
  ℕ, suc, Bool, true, false, ◌&&◌, Option, none, some, List, [], ◌∷◌, ◌++◌, ◌==◌, str_eq,
  if◌then◌else◌,
}
use multi_tenant_authorizati.Db.Rows.{exists_row, select, is_value}
use multi_tenant_authorizati.Db.Schema.{Uuid, Role, RolePermission, Db}
use multi_tenant_authorizati.Db.Go.{Moment}

abbrev pub is_template : Role → Bool
is_template r = elim r.organization_id [ none ↦ true | some _ ↦ false ]

-- `organization_id = p_organization_id AND name = name`
abbrev pub has_name : Uuid → Role → Role → Bool
has_name org template r = is_value (λ o. o == org) r.organization_id && str_eq r.name template.name

abbrev pub copy_role : Moment → ℕ → Uuid → Role → Role
copy_role t k org template = record {
  id = t.fresh k;
  organization_id = some org;
  name = template.name;
  kind = template.kind;
  is_system = template.is_system;
  created_at = t.now;
}

-- Step 1, with ON CONFLICT (organization_id, name) DO NOTHING. It fails if a generated identifier
-- is taken.
unfoldable pub clone_roles : Moment → ℕ → Uuid → List Role → List Role → Option (List Role)
clone_roles t k org [] roles = some roles
clone_roles t k org (template ∷ rest) roles =
    if exists_row (has_name org template) roles
    then clone_roles t (suc k) org rest roles
    else (if exists_row (λ (r : Role). r.id == t.fresh k) roles
        then none
        else clone_roles t (suc k) org rest (copy_role t k org template ∷ roles))

-- One row of the join: a grant of a template, for a role of the same name in the organization.
unfoldable pub grants_to : RolePermission → List Role → List RolePermission
grants_to g [] = []
grants_to g (r ∷ rs) = record { role_id = r.id; permission_id = g.permission_id } ∷ grants_to g rs

unfoldable pub grants_of : List RolePermission → List Role → List RolePermission
unfolding grants_to
grants_of [] rs = []
grants_of (g ∷ gs) rs = grants_to g rs ++ grants_of gs rs

unfoldable pub template_grants :
    List Role → List RolePermission → Uuid → List Role → List RolePermission
unfolding grants_of
template_grants roles grants org [] = []
template_grants roles grants org (template ∷ rest) =
    grants_of (select (λ (g : RolePermission). g.role_id == template.id) grants)
      (select (has_name org template) roles)
    ++ template_grants roles grants org rest

-- `ON CONFLICT (role_id, permission_id) DO NOTHING`
abbrev same_grant : RolePermission → RolePermission → Bool
same_grant g h = h.role_id == g.role_id && h.permission_id == g.permission_id

unfoldable pub add_grants : List RolePermission → List RolePermission → List RolePermission
add_grants [] grants = grants
add_grants (g ∷ gs) grants =
    add_grants gs (if exists_row (same_grant g) grants then grants else g ∷ grants)

unfoldable pub provision_default_roles : Moment → Uuid → Db → Option Db
unfolding clone_roles template_grants add_grants
provision_default_roles t org d = elim (clone_roles t 1 org (select is_template d.roles) d.roles) [
  | none ↦ none
  | some roles ↦ some (record d {
    roles = roles;
    role_permissions =
        add_grants (template_grants roles d.role_permissions org (select is_template roles))
          d.role_permissions;
  })
]
