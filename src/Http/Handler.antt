-- ===== src/Http/Handler.antt =====
-- What the handlers share: the path identifiers, the identity of the caller, the request body.
use multi_tenant_authorizati.Base.{String, Option, none, some, List}
use multi_tenant_authorizati.Apperrors.{Result, ok, err}
use multi_tenant_authorizati.Db.Schema.{Uuid}
use multi_tenant_authorizati.Db.Go.{Go, pure, ◌>>=◌, try}
use multi_tenant_authorizati.Validation.{validate_struct}
use multi_tenant_authorizati.Http.{Request}
use multi_tenant_authorizati.Http.Response.{Response, error, validation_error, handle_error}

-- encoding/json into a request type, and github.com/go-playground/validator on its struct tags:
-- the field and the tag of each rule that is broken.
pub record Codec (A : Type 0) : Type 0 where
  pub decode : Request → Option A
  pub violations : A → List (String × String)

-- `if !ok { response.Error(…); return }`
abbrev pub or_respond : {A : Type 0} → Option A → Response → (A → Go Response) → Go Response
or_respond none r k = pure r
or_respond (some a) r k = k a

-- `if err != nil { response.HandleError(w, err); return }`
abbrev handled : {A : Type 0} → Result A → (A → Go Response) → Go Response
handled (err x) k = pure (handle_error x)
handled (ok a) k = k a

abbrev pub or_handle : {A : Type 0} → Go A → (A → Go Response) → Go Response
or_handle m k = do r ← try m; handled r k

abbrev pub validated : Option (List (String × String)) → Go Response → Go Response
validated (some fields) k = pure (validation_error fields)
validated none k = k

abbrev pub identified : Option Uuid → (Uuid → Go Response) → Go Response
identified u = or_respond u (error 401 "missing_identity" "Authentication required")

-- The body, decoded and validated; `bad` is the response to a body that does not decode.
abbrev pub with_body : {A : Type 0} → Codec A → Request → Response → (A → Go Response) → Go Response
with_body c r bad k =
    or_respond (c.decode r) bad λ a. validated (validate_struct (c.violations a)) (k a)

abbrev pub invalid_request : Response
invalid_request = error 400 "invalid_request" "Invalid request body"
