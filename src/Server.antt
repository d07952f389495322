-- ===== src/Server.antt =====
-- cmd/main.go: from the configuration to the shutdown.
pub mod Drains
use multi_tenant_authorizati.Base.{
  ℕ, Bool, true, false, Option, none, some, List, [], ◌∷◌, if◌then◌else◌,
}
use multi_tenant_authorizati.Config.{Config, Checked, valid, invalid}

-- What the process does to the rest of the system.
pub data Effect : Type 0 where
  listen shutdown close_pool : Effect
  set_ready : Bool → Effect

-- What wakes the process up.
pub data Wake : Type 0 where
  shutdown_signal server_error : Wake

-- How the calls turn out: config.Load, db.Connect, the select, and server.Shutdown.
pub record Startup : Type 0 where
  pub loaded : Checked Config
  pub connects : Bool
  pub wake : Wake
  pub shuts_down : Bool

-- `SetReady(false)` and the graceful shutdown.
abbrev stop : Wake → Bool → List Effect × ℕ
stop server_error shuts_down = ([], 1)
stop shutdown_signal true = (set_ready false ∷ shutdown ∷ close_pool ∷ [], 0)
stop shutdown_signal false = (set_ready false ∷ shutdown ∷ [], 1)

abbrev serve : List Effect × ℕ → List Effect × ℕ
serve (effects, code) = (listen ∷ set_ready true ∷ effects, code)

abbrev connected : Startup → Bool → List Effect × ℕ
connected s false = ([], 1)
connected s true = serve (stop s.wake s.shuts_down)

abbrev started : Startup → Checked Config → List Effect × ℕ
started s (invalid x) = ([], 1)
started s (valid c) = connected s s.connects

-- The effects of the process, in their order, and its exit code.
unfoldable pub main : Startup → List Effect × ℕ
main s = started s s.loaded

abbrev after_effect : Effect → Bool → Bool
after_effect (set_ready b) ready = b
after_effect _ ready = ready

-- The flag of the health handler after some effects; it is false at first.
abbrev pub is_ready : Bool → List Effect → Bool
is_ready ready [] = ready
is_ready ready (x ∷ xs) = is_ready (after_effect x ready) xs
