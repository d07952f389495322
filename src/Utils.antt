-- ===== src/Utils.antt =====
-- internal/utils: the client's address and the page of a listing.
pub mod Page
use Prim.Native.Char.{code}
use multi_tenant_authorizati.Base.{
  ℕ, String, Bool, ◌&&◌, Option, none, some, ◌==◌, str_eq, leb, if◌then◌else◌,
}
use multi_tenant_authorizati.Text.{trim_space, split_comma}
use multi_tenant_authorizati.Http.{Request, header, query_value}

abbrev or_else : String → Option String → String
or_else s none = s
or_else s (some t) = t

-- `split_host_port` stands for the host of net.SplitHostPort; none is its error.
unfoldable pub client_ip : (String → Option String) → Request → String
client_ip split_host_port r =
    if str_eq (header "X-Forwarded-For" r) ""
    then or_else r.remote_addr (split_host_port r.remote_addr)
    else trim_space (split_comma (header "X-Forwarded-For" r)).0

-- strconv.Atoi: a number that fits an int, negative or not; none is its error.
pub data ℤ : Type 0 where
  pos : ℕ → ℤ
  -- -(n + 1)
  negsuc : ℕ → ℤ

abbrev default_limit : ℕ
default_limit = 50

abbrev pub max_limit : ℕ
max_limit = 200

abbrev pub limit_of : Option ℤ → ℕ
limit_of (some (pos n)) = if leb 1 n && leb n max_limit then n else default_limit
limit_of _ = default_limit

abbrev offset_of : Option ℤ → ℕ
offset_of (some (pos n)) = n
offset_of _ = 0

-- `if v != ""`: an absent parameter is not converted.
abbrev pub convert : (String → Option ℤ) → String → Option ℤ
convert atoi v = if str_eq v "" then none else atoi v

unfoldable pub parse_pagination : (String → Option ℤ) → Request → ℕ × ℕ
parse_pagination atoi r = (
  limit_of (convert atoi (query_value "limit" r)),
  offset_of (convert atoi (query_value "offset" r)),
)
