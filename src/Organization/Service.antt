-- ===== src/Organization/Service.antt =====
-- internal/organization/service.go.
use multi_tenant_authorizati.Base.{String, List}
use multi_tenant_authorizati.Apperrors.{cannot_delete_personal_org}
use multi_tenant_authorizati.Db.Schema.{Uuid, Organization, business, is_personal}
use multi_tenant_authorizati.Db.Go.{Go, raise_if, ◌>>=◌, ◌>>◌}
use multi_tenant_authorizati.Db.Driver.{Driver}
use multi_tenant_authorizati.Organization.Repository.{
  get_by_id, list_for_user, bootstrap, update_name, soft_delete,
}

unfoldable pub get_organization : Uuid → Go Organization
get_organization org = get_by_id org

unfoldable pub list_organizations : Uuid → Go (List Organization)
list_organizations user = list_for_user user

unfoldable pub create_organization : Driver → Uuid → String → Go Organization
create_organization pg owner_user name = do
  org ← pg.begin_func (bootstrap name business owner_user)
  get_by_id org

unfoldable pub rename_organization : Uuid → String → Go Organization
rename_organization org name = update_name org name

unfoldable pub delete_organization : Uuid → Go Unit
delete_organization org = do
  o ← get_by_id org
  raise_if (is_personal o.org_type) cannot_delete_personal_org
  soft_delete org
