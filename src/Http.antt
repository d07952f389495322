-- ===== src/Http.antt =====
-- Requests, responses and handlers, as far as the program reads and writes them (net/http), and
-- the request context of internal/requestctx/ctx.go.
pub mod Response
pub mod Handler
pub mod Statuses
use multi_tenant_authorizati.Base.{
  ℕ, String, Bool, Option, none, some, List, [], ◌∷◌, ◌++◌, str_eq, if◌then◌else◌,
}
use multi_tenant_authorizati.Text.{get_or_empty}
use multi_tenant_authorizati.Db.Schema.{Uuid, Time}
use multi_tenant_authorizati.Db.Go.{Go}

-- The values of context.WithValue under the keys of requestctx; none where the key is not set.
pub record Context : Type 0 where
  pub user_id : Option Uuid
  pub org_id : Option Uuid
  pub session_id : Option Uuid
  pub request_id : Option String

abbrev pub background : Context
background = record { user_id = none; org_id = none; session_id = none; request_id = none }

-- A header or a path value that is absent reads as "".
pub record Request : Type 0 where
  pub method : String
  pub headers : List (String × String)
  pub cookies : List (String × String)
  pub path_values : List (String × String)
  pub query : List (String × String)
  pub remote_addr : String
  -- the bound that http.MaxBytesReader puts on the body, if it is wrapped
  pub max_body : Option ℕ
  pub context : Context

unfoldable pub header : String → Request → String
header name r = get_or_empty name r.headers

unfoldable pub path_value : String → Request → String
path_value name r = get_or_empty name r.path_values

unfoldable pub query_value : String → Request → String
query_value name r = get_or_empty name r.query

-- `r.Cookie(name)`, which fails if there is none.
unfoldable pub cookie_in : String → List (String × String) → Option String
cookie_in name [] = none
cookie_in name ((k, v) ∷ rest) = if str_eq k name then some v else cookie_in name rest

abbrev pub with_user_id : Uuid → Request → Request
with_user_id u r = record r { context = record r.context { user_id = some u } }

abbrev pub with_org_id : Uuid → Request → Request
with_org_id o r = record r { context = record r.context { org_id = some o } }

abbrev pub with_session_id : Uuid → Request → Request
with_session_id s r = record r { context = record r.context { session_id = some s } }

abbrev pub with_request_id : String → Request → Request
with_request_id i r = record r { context = record r.context { request_id = some i } }
