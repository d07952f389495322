-- ===== src/Auth/SignUp.antt =====
-- Register and the middleware fit: the tokens of a registration are those of a live session.
use multi_tenant_authorizati.Base.{◌&&◌, ◌==◌, true, ◌≡◌, sym, subst, String, arith, List, ℕ}
use multi_tenant_authorizati.Apperrors.{ok}
use multi_tenant_authorizati.Db.Rows.{exists_row}
use multi_tenant_authorizati.Db.Schema.{User, user_active, Uuid, Digest, Db, personal}
use multi_tenant_authorizati.Db.Go.{Env, World}
use multi_tenant_authorizati.Db.Driver.{Driver}
use multi_tenant_authorizati.Db.Ensures.{
  Ensures, Ensures-bind, Ensures-raise_if, Ensures-random_salt, Ensures-from_option, Ensures-weaken,
  Ensures-assume, Ensures-begin_func, Ensures-pure,
}
use multi_tenant_authorizati.Auth.Repository.{NewUser, create_user}
use multi_tenant_authorizati.Auth.Service.{
  Passwords, TokenTtl, TokenPair, RegisterInput, RegisterResult, register_tx, register,
  workspace_name,
}
use multi_tenant_authorizati.Auth.Users.{bootstrap_users}
use multi_tenant_authorizati.Auth.Rotation.{new_tokens-Ensures}
use multi_tenant_authorizati.Auth.SignIn.{
  IsActiveUser, SignedIn, create_session-SignedIn, log_best_effort-SignedIn,
}

create_user-IsActiveUser :
    (u : NewUser) → Ensures (λ _. Unit {0}) (create_user u) (λ id d. IsActiveUser id d)
unfolding create_user
create_user-IsActiveUser u = record { at = λ e w a p h. ground arith }

module _ (sha256 : String → Digest) (ttl : TokenTtl) where
  -- The session of the user is that of the two tokens of the pair.
  abbrev pub Opened : Uuid → TokenPair → Db → Type 0
  Opened user tokens d =
      SignedIn user (sha256 tokens.access_token) (sha256 tokens.refresh_token)
        tokens.access_token_expires_at tokens.refresh_token_expires_at d

  register_tx-Opened :
      (input : RegisterInput) (password_hash : List ℕ)
      → Ensures
          (λ _. Unit {0})
          (register_tx sha256 ttl input password_hash)
          (λ a d. Opened a.0 a.2 d)
  unfolding register_tx
  register_tx-Opened input password_hash = Ensures-bind (create_user-IsActiveUser _) λ user.
      Ensures-bind
        (bootstrap_users
          (λ us. exists_row (λ (u : User). u.id == user && user_active u.status) us ≡ true)
          (workspace_name sha256 ttl input.first_name) personal user)
        λ org. Ensures-bind (new_tokens-Ensures sha256 ttl) λ tokens.
          Ensures-bind (create_session-SignedIn _) λ _.
            Ensures-weaken
              (λ a d q. subst (λ (x : Uuid × Uuid × TokenPair). Opened x.0 x.2 d) (sym q.1) q.0)
              (Ensures-pure _)

  -- A registration that succeeds has signed its user in: the tokens that it returns are those of
  -- one unrevoked session of the new user, for the two times returned.
  pub register-SignedIn :
      (passwords : Passwords) (pg : Driver) (input : RegisterInput) (result : RegisterResult)
      (e : Env) (w : World)
      → (register sha256 ttl passwords pg input e w).0 ≡ ok result
      → Opened result.user.id result.tokens (register sha256 ttl passwords pg input e w).1.db
  unfolding register
  register-SignedIn passwords pg input result e w h =
      (Ensures-bind {P = λ _. Unit {0}} {Q = λ (a : RegisterResult) d. Opened a.user.id a.tokens d}
          (Ensures-raise_if _ _)
          λ _. Ensures-bind (Ensures-random_salt _) λ salt.
            Ensures-bind (Ensures-from_option _ _) λ stored.
              Ensures-bind
                (Ensures-assume (λ d q. tt)
                  (Ensures-begin_func pg (register_tx-Opened input stored)))
                λ a. Ensures-bind (log_best_effort-SignedIn _ _ _ _ _ _) λ _.
                  Ensures-weaken
                    (λ x d q.
                      subst (λ (y : RegisterResult). Opened y.user.id y.tokens d) (sym q.1) q.0)
                    (Ensures-pure _)).at
        e w result tt h
