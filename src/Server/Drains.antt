-- ===== src/Server/Drains.antt =====
-- The server withdraws its readiness before it stops taking requests.
use multi_tenant_authorizati.Base.{◌≡◌, refl, Bool, true, false, List, [], ◌∷◌, ◌++◌}
use multi_tenant_authorizati.Apperrors.{ok}
use multi_tenant_authorizati.Db.Go.{Env, World}
use multi_tenant_authorizati.Http.{Request}
use multi_tenant_authorizati.Config.{Config, Checked, valid, invalid}
use multi_tenant_authorizati.Health.{ready, health_route, unavailable, handle_ready}
use multi_tenant_authorizati.Server.{
  Effect, listen, shutdown, close_pool, set_ready, Wake, shutdown_signal, server_error, Startup,
  main, is_ready,
}

-- Behind each effect `x` of a list, `P` of the effects before it.
abbrev pub Before : (Effect → List Effect → Type 0) → List Effect → List Effect → Type 0
Before P seen [] = Unit
Before P seen (x ∷ xs) = P x seen × Before P (seen ++ x ∷ []) xs

-- At the shutdown the readiness probe answers 503; the pool is closed right after the shutdown.
abbrev pub Drained : Request → Effect → List Effect → Type 0
Drained r shutdown seen =
    (e : Env) (w : World)
    → health_route (is_ready false seen) ready r e w ≡ (ok (unavailable "service unavailable"), w)
Drained r close_pool seen = (before : List Effect) × (seen ≡ before ++ shutdown ∷ [])
Drained r _ seen = Unit

-- In every run of the process, when the server is shut down, the readiness probe already answers
-- 503 without a call of the database; and the pool is closed only when the server has been shut
-- down.
main-Drained : (s : Startup) (r : Request) → Before (Drained r) [] (main s).0
unfolding main health_route handle_ready
main-Drained s r = go s.loaded s.connects s.wake s.shuts_down
  where
    go :
        (loaded : Checked Config) (connects : Bool) (wake : Wake) (shuts_down : Bool)
        → Before
            (Drained r)
            []
            (main (record {
              loaded = loaded;
              connects = connects;
              wake = wake;
              shuts_down = shuts_down;
            })).0
    go (invalid x) _ _ _ = tt
    go (valid c) false _ _ = tt
    go (valid c) true server_error _ = (tt, (tt, tt))
    go (valid c) true shutdown_signal true = (
      tt,
      (tt, (tt, (λ e w. refl, ((listen ∷ set_ready true ∷ set_ready false ∷ [], refl), tt)))),
    )
    go (valid c) true shutdown_signal false = (tt, (tt, (tt, (λ e w. refl, tt))))
