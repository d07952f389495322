-- ===== src/System/Accounts.antt =====
-- The calls of the auth service leave every organization governed; Register founds one.
use multi_tenant_authorizati.Base.{ℕ, String, List, subst, sym}
use multi_tenant_authorizati.Apperrors.{Result, ok, err, refresh_replay}
use multi_tenant_authorizati.Db.Schema.{Uuid, Digest, personal}
use multi_tenant_authorizati.Db.Driver.{Driver}
use multi_tenant_authorizati.Db.Keeps.{Keeps, keeps_rules, Keeps-from_option}
use multi_tenant_authorizati.Db.Ensures.{Ensures, Ensures-bind, Ensures-weaken, Ensures-pure}
use multi_tenant_authorizati.Auth.Repository.{get_session_for_refresh}
use multi_tenant_authorizati.Auth.Service.{
  Passwords, TokenTtl, TokenPair, RegisterInput, LoginInput, RefreshInput, register_tx, register,
  login, authenticate, refresh_tx, refresh, revoke_replayed, after_rotation, logout, logout_all,
  new_tokens, generate_opaque_token, workspace_name,
}
use multi_tenant_authorizati.Auth.Rotation.{new_tokens-Ensures}
use multi_tenant_authorizati.Auth.SignIn.{authenticate_reads}
use multi_tenant_authorizati.Auth.System.{Keeps-try}
use multi_tenant_authorizati.System.Governed.{IsGoverned, bootstrap-IsGoverned}
use multi_tenant_authorizati.System.Statements.{
  Keeps-transaction, Keeps-Ensures, create_user-IsGoverned, create_session-IsGoverned,
  create_session_in_family-IsGoverned, revoke_session-IsGoverned,
  revoke_session_if_active-IsGoverned, revoke_family-IsGoverned, revoke_all-IsGoverned,
  log_best_effort-IsGoverned,
}

ruleset account_rules = (
  keeps_rules, Keeps-try, create_session-IsGoverned, create_session_in_family-IsGoverned,
  revoke_session-IsGoverned, revoke_session_if_active-IsGoverned, revoke_family-IsGoverned,
  revoke_all-IsGoverned, log_best_effort-IsGoverned,
)

module _ (sha256 : String → Digest) (ttl : TokenTtl) where
  new_tokens-IsGoverned : Keeps IsGoverned (new_tokens sha256 ttl)
  unfolding new_tokens generate_opaque_token
  new_tokens-IsGoverned = search keeps_rules depth 9

  register_tx-IsGoverned :
      (input : RegisterInput) (stored : List ℕ)
      → Ensures IsGoverned (register_tx sha256 ttl input stored) (λ _ d. IsGoverned d)
  unfolding register_tx
  register_tx-IsGoverned input stored =
      Ensures-bind (Keeps-Ensures (create_user-IsGoverned _)) λ user.
        Ensures-bind
          (bootstrap-IsGoverned (workspace_name sha256 ttl input.first_name) personal user)
          λ org. Ensures-bind (new_tokens-Ensures sha256 ttl) λ tokens.
            Ensures-bind (Keeps-Ensures (create_session-IsGoverned _))
              λ _. Ensures-weaken (λ _ d q. q.0) (Ensures-pure _)

  registration-IsGoverned :
      (pg : Driver) (input : RegisterInput) (stored : List ℕ)
      → Keeps IsGoverned (pg.begin_func (register_tx sha256 ttl input stored))
  registration-IsGoverned pg input stored =
      Keeps-transaction pg _ (register_tx-IsGoverned input stored)

  pub register-IsGoverned :
      (passwords : Passwords) (pg : Driver) (input : RegisterInput)
      → Keeps IsGoverned (register sha256 ttl passwords pg input)
  unfolding register
  register-IsGoverned passwords pg input =
      search (account_rules, Keeps-from_option, registration-IsGoverned) depth 11

  authenticate-IsGoverned :
      (passwords : Passwords) (identifier password : String)
      → Keeps IsGoverned (authenticate sha256 ttl passwords identifier password)
  authenticate-IsGoverned passwords identifier password = record {
    at = λ e w g.
        subst IsGoverned (sym (authenticate_reads sha256 ttl passwords identifier password e w)) g;
  }

  pub login-IsGoverned :
      (passwords : Passwords) (input : LoginInput)
      → Keeps IsGoverned (login sha256 ttl passwords input)
  unfolding login
  login-IsGoverned passwords input =
      search (account_rules, authenticate-IsGoverned, new_tokens-IsGoverned) depth 11

  refresh_tx-IsGoverned : (input : RefreshInput) → Keeps IsGoverned (refresh_tx sha256 ttl input)
  unfolding refresh_tx get_session_for_refresh
  refresh_tx-IsGoverned input = search (account_rules, new_tokens-IsGoverned) depth 15

  after_rotation-IsGoverned :
      (input : RefreshInput) (r : Result TokenPair)
      → Keeps IsGoverned (after_rotation sha256 ttl input r)
  unfolding revoke_replayed
  after_rotation-IsGoverned input (ok tokens) = search account_rules
  after_rotation-IsGoverned input (err (refresh_replay session user family)) =
      search account_rules depth 9
  after_rotation-IsGoverned input (err x) = search account_rules

  pub refresh-IsGoverned :
      (pg : Driver) (input : RefreshInput) → Keeps IsGoverned (refresh sha256 ttl pg input)
  unfolding refresh
  refresh-IsGoverned pg input =
      search (account_rules, refresh_tx-IsGoverned, after_rotation-IsGoverned) depth 9

pub logout-IsGoverned : (session : Uuid) → Keeps IsGoverned (logout session)
unfolding logout
logout-IsGoverned session = revoke_session-IsGoverned session

pub logout_all-IsGoverned : (user : Uuid) → Keeps IsGoverned (logout_all user)
unfolding logout_all
logout_all-IsGoverned user = revoke_all-IsGoverned user
