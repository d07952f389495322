-- ===== src/Organization/Founded.antt =====
-- CreateOrganization makes its caller an owner.
use multi_tenant_authorizati.Base.{
  ◌≡◌, sym, subst, some, none, List, [], ◌∷◌, arith, String, if◌then◌else◌,
}
use multi_tenant_authorizati.Apperrors.{ok}
use multi_tenant_authorizati.Db.Rows.{first_row}
use multi_tenant_authorizati.Db.Schema.{Uuid, Organization, Db, business}
use multi_tenant_authorizati.Db.Go.{Env, World}
use multi_tenant_authorizati.Db.Driver.{Driver}
use multi_tenant_authorizati.Db.Ensures.{
  Ensures, Ensures-bind, Ensures-query_row, Ensures-weaken, Ensures-begin_func,
}
use multi_tenant_authorizati.Membership.Guards.{IsOwner}
use multi_tenant_authorizati.Organization.Repository.{is_live, live_org, get_by_id}
use multi_tenant_authorizati.Organization.Service.{create_organization}
use multi_tenant_authorizati.Organization.Founding.{UniqueRoles, bootstrap-IsOwner}

live-id :
    (org : Uuid) (o : Organization) (os : List Organization)
    → first_row (λ (x : Organization). if is_live org x then some x else none) os ≡ some o
    → o.id ≡ org
live-id org o [] h = cc
live-id org o (x ∷ os) h = ground (arith, live-id org o os)

pub get_by_id-Ensures :
    {P : Db → Type 0} (org : Uuid)
    → Ensures P (get_by_id org) (λ o d. P d × (live_org org d ≡ some o))
unfolding get_by_id
get_by_id-Ensures org = Ensures-query_row _ _

-- A call that creates an organization leaves its caller an active owner of it, where the roles have
-- identifiers of their own.
pub create_organization-IsOwner :
    (pg : Driver) (user : Uuid) (name : String) (o : Organization) (e : Env) (w : World)
    → UniqueRoles w.db
    → (create_organization pg user name e w).0 ≡ ok o
    → IsOwner o.id user (create_organization pg user name e w).1.db
unfolding create_organization
create_organization-IsOwner pg user name o e w u h =
    (Ensures-bind {P = UniqueRoles} {Q = λ x d. IsOwner x.id user d}
        (Ensures-begin_func pg (bootstrap-IsOwner name business user))
        λ org.
          Ensures-weaken
            (λ x d q. subst (λ i. IsOwner i user d) (sym (live-id org x d.organizations q.1)) q.0)
            (get_by_id-Ensures org)).at
      e w o u h
