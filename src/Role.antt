-- ===== src/Role.antt =====
-- internal/role: the roles of an organization, read only.
use multi_tenant_authorizati.Base.{String, Bool, Option, List, ◌==◌}
use multi_tenant_authorizati.Db.Rows.{select, order_by, is_value}
use multi_tenant_authorizati.Db.Schema.{Uuid, Role}
use multi_tenant_authorizati.Db.Go.{Go, pure, query_rows}
use multi_tenant_authorizati.Http.{Request, path_value}
use multi_tenant_authorizati.Http.Response.{Response, error, success, roles}
use multi_tenant_authorizati.Http.Handler.{or_respond, or_handle}

abbrev pub is_of_org : Uuid → Role → Bool
is_of_org org r = is_value (λ o. o == org) r.organization_id

unfoldable pub list_by_org : Uuid → Go (List Role)
list_by_org org =
    query_rows λ d. order_by (λ (r : Role). r.created_at) (select (is_of_org org) d.roles)

unfoldable pub handle_list : (String → Option Uuid) → Request → Go Response
handle_list parse r =
    or_respond (parse (path_value "org_id" r))
      (error 400 "invalid_org_id" "Invalid organization ID")
      λ org. or_handle (list_by_org org) λ found. pure (success 200 "roles retrieved" (roles found))
