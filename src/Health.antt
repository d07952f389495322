-- ===== src/Health.antt =====
-- internal/health/handler.go, and the routes of the probes in internal/routes/routes.go.
use multi_tenant_authorizati.Base.{Bool, true, false, String}
use multi_tenant_authorizati.Db.Go.{pure, ◌>>=◌, now, statement, Outcome, row}
use multi_tenant_authorizati.Http.Response.{Response, Payload, error, success, nothing}
use multi_tenant_authorizati.Middleware.Auth.{Handler}

unfoldable handle_health : Handler
handle_health r = do t ← now; pure (success 200 "service healthy" (Payload.health "ok" t))

abbrev pub unavailable : String → Response
unavailable = error 503 "service_unavailable"

abbrev ready_or : Outcome Unit Unit → Response
ready_or (row _) = success 200 "service ready" nothing
ready_or _ = unavailable "database unavailable"

-- The flag is read first; `Ping` is a call of the database that may fail.
unfoldable pub handle_ready : Bool → Handler
handle_ready false r = pure (unavailable "service unavailable")
handle_ready true r = do
  answer ← statement {C = Unit {0}} (λ t d. (row tt, d))
  pure (ready_or answer)

unfoldable handle_live : Handler
handle_live r = pure (success 200 "service alive" nothing)

-- The probes of `RegisterHealthRoutes`.
pub data Probe : Type 0 where
  health live ready : Probe

unfoldable pub health_route : Bool → Probe → Handler
unfolding handle_health handle_live handle_ready
health_route flag health = handle_health
health_route flag live = handle_live
health_route flag ready = handle_ready flag
