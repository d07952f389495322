-- ===== src/Authz.antt =====
-- internal/authz: one permission check for each protected request, and the trail of decisions.
pub mod Policy
use multi_tenant_authorizati.Base.{
  ℕ, zero, suc, String, Bool, ◌&&◌, List, [], ◌∷◌, ◌==◌, str_eq, if◌then◌else◌,
}
use multi_tenant_authorizati.Apperrors.{database}
use multi_tenant_authorizati.Db.Rows.{exists_row, select, order_by_desc}
use multi_tenant_authorizati.Db.Schema.{
  Uuid, Organization, Permission, RolePermission, Membership, AuthzDecision, Db, org_active,
  member_active,
}
use multi_tenant_authorizati.Db.Go.{
  Go, pure, ◌>>=◌, Statement, row, unique_violation, failed, statement, query_rows, query_row, scan,
}
use mathlib.Core.Option.{some}
use multi_tenant_authorizati.Membership.Repository.{user_exists, org_exists}

-- JOIN permissions p ON p.id = rp.permission_id WHERE p.key = $3
abbrev pub grants_key : List Permission → String → RolePermission → Bool
grants_key permissions key g =
    exists_row (λ (p : Permission). p.id == g.permission_id && str_eq p.key key) permissions

-- JOIN role_permissions rp ON rp.role_id = m.role_id
abbrev pub role_grants : Db → Uuid → String → Bool
role_grants d role key =
    exists_row (λ (g : RolePermission). g.role_id == role && grants_key d.permissions key g)
      d.role_permissions

-- JOIN organizations o ON o.id = m.organization_id AND o.status = 'active'
abbrev pub org_is_active : Db → Uuid → Bool
org_is_active d org =
    exists_row (λ (o : Organization). o.id == org && org_active o.status) d.organizations

abbrev pub allows : Uuid → Uuid → String → Db → Bool
allows user org key d =
    exists_row
      (λ (m : Membership).
        m.user_id == user
        && m.organization_id == org
        && member_active m.status
        && org_is_active d m.organization_id
        && role_grants d m.role_id key)
      d.memberships

unfoldable pub check_permission : Uuid → Uuid → String → Go Bool
check_permission user org key = query_row database (λ d. some (allows user org key d))

pub record Decision : Type 0 where
  pub organization_id : Uuid
  pub user_id : Uuid
  pub permission_key : String
  pub allowed : Bool
  pub reason : String

abbrev insert_decision : Decision → Statement Unit Unit
insert_decision c t d =
    if exists_row (λ (a : AuthzDecision). a.id == t.fresh 0) d.authz_decisions
    then (unique_violation tt, d)
    else (if org_exists c.organization_id d && user_exists c.user_id d
        then (
          row tt,
          record d {
            authz_decisions =
                record {
                  id = t.fresh 0;
                  organization_id = c.organization_id;
                  user_id = c.user_id;
                  permission_key = c.permission_key;
                  allowed = c.allowed;
                  reason = c.reason;
                  created_at = t.now;
                }
                ∷ d.authz_decisions;
          },
        )
        else (failed, d))

unfoldable pub record_decision : Decision → Go Unit
record_decision c = do scan database (← statement (insert_decision c))

-- `LIMIT $2 OFFSET $3`
abbrev pub take {ℓ} : {A : Type ℓ} → ℕ → List A → List A
take zero xs = []
take (suc n) [] = []
take (suc n) (x ∷ xs) = x ∷ take n xs

abbrev pub drop {ℓ} : {A : Type ℓ} → ℕ → List A → List A
drop zero xs = xs
drop (suc n) [] = []
drop (suc n) (x ∷ xs) = drop n xs

unfoldable pub list_for_org : Uuid → ℕ → ℕ → Go (List AuthzDecision)
list_for_org org limit offset = query_rows λ d. take limit (
    drop offset (
      order_by_desc (λ (a : AuthzDecision). a.created_at)
        (select (λ (a : AuthzDecision). a.organization_id == org) d.authz_decisions)))
