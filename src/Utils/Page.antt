-- ===== src/Utils/Page.antt =====
-- internal/utils/pagination.go: the bounds of a page.
use multi_tenant_authorizati.Base.{◌≤◌, String, Option, none, some, arith}
use multi_tenant_authorizati.Http.{Request, query_value}
use multi_tenant_authorizati.Utils.{ℤ, pos, negsuc, limit_of, convert, parse_pagination, max_limit}

limit_of-bounds : (o : Option ℤ) → (1 ≤ limit_of o) × (limit_of o ≤ max_limit)
limit_of-bounds none = (omega arith, omega arith)
limit_of-bounds (some (negsuc n)) = (omega arith, omega arith)
limit_of-bounds (some (pos n)) = (ground arith, ground arith)

-- Whatever a client asks for, the LIMIT is from 1 to 200.
parse_pagination-bounds :
    (atoi : String → Option ℤ) (r : Request)
    → (1 ≤ (parse_pagination atoi r).0) × ((parse_pagination atoi r).0 ≤ max_limit)
unfolding parse_pagination
parse_pagination-bounds atoi r = limit_of-bounds (convert atoi (query_value "limit" r))
