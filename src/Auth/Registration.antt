-- ===== src/Auth/Registration.antt =====
-- Register: one unit, which makes its user the owner of a personal organization.
use multi_tenant_authorizati.Base.{◌≡◌, refl, sym, subst, String, arith, List, ℕ}
use multi_tenant_authorizati.Apperrors.{ok, external}
use multi_tenant_authorizati.Db.Schema.{Uuid, Digest, personal}
use multi_tenant_authorizati.Db.Go.{Env, World}
use multi_tenant_authorizati.Db.Driver.{Driver}
use multi_tenant_authorizati.Db.Ensures.{
  Ensures, Ensures-bind, Ensures-raise_if, Ensures-random_salt, Ensures-from_option, Ensures-weaken,
  Ensures-assume, Ensures-begin_func, Ensures-pure,
}
use multi_tenant_authorizati.Db.Atomic.{
  Aftermath, Completes, Atomic, Total, Total-bind, Total-pure, Atomic-bind, Atomic-then,
  Atomic-begin_func, Reads-raise_if, Reads-random_salt, Reads-from_option,
}
use multi_tenant_authorizati.Audit.{LogEntry, log, log_best_effort}
use multi_tenant_authorizati.Membership.Guards.{IsOwner}
use multi_tenant_authorizati.Organization.Founding.{UniqueRoles, bootstrap-IsOwner}
use multi_tenant_authorizati.Auth.Repository.{NewUser, create_user, NewSession, create_session}
use multi_tenant_authorizati.Auth.Service.{
  Passwords, TokenTtl, TokenPair, RegisterInput, RegisterResult, register_tx, register,
  workspace_name,
}
use multi_tenant_authorizati.Auth.Rotation.{new_tokens-Ensures}

create_user-UniqueRoles : (u : NewUser) → Ensures UniqueRoles (create_user u) (λ _ d. UniqueRoles d)
unfolding create_user
create_user-UniqueRoles u = record { at = λ e w a p h. ground arith }

create_session-IsOwner :
    (org user : Uuid) (s : NewSession)
    → Ensures (IsOwner org user) (create_session s) (λ _ d. IsOwner org user d)
unfolding create_session
create_session-IsOwner org user s = record { at = λ e w a p h. ground arith }

log_best_effort-IsOwner :
    (org user : Uuid) (l : LogEntry)
    → Ensures (IsOwner org user) (log_best_effort l) (λ _ d. IsOwner org user d)
unfolding log_best_effort log
log_best_effort-IsOwner org user l = record { at = λ e w a p h. ground arith }

log_best_effort-Total : (l : LogEntry) → Total (log_best_effort l)
unfolding log_best_effort
log_best_effort-Total l = record { at = λ e w x h. cc }

module _ (sha256 : String → Digest) (ttl : TokenTtl) where
  register_tx-IsOwner :
      (input : RegisterInput) (password_hash : List ℕ)
      → Ensures UniqueRoles (register_tx sha256 ttl input password_hash) (λ a d. IsOwner a.1 a.0 d)
  unfolding register_tx
  register_tx-IsOwner input password_hash = Ensures-bind (create_user-UniqueRoles _) λ user.
      Ensures-bind (bootstrap-IsOwner (workspace_name sha256 ttl input.first_name) personal user)
        λ org. Ensures-bind (new_tokens-Ensures sha256 ttl) λ tokens.
          Ensures-bind (create_session-IsOwner org user _) λ _.
            Ensures-weaken
              (λ a d q. subst (λ (x : Uuid × Uuid × TokenPair). IsOwner x.1 x.0 d) (sym q.1) q.0)
              (Ensures-pure _)

  -- Where the roles have identifiers of their own, a registration that succeeds leaves its user an
  -- active owner of the organization that it returns.
  pub register-IsOwner :
      (passwords : Passwords) (pg : Driver) (input : RegisterInput) (result : RegisterResult)
      (e : Env) (w : World)
      → UniqueRoles w.db
      → (register sha256 ttl passwords pg input e w).0 ≡ ok result
      → IsOwner result.organization.id result.user.id
          (register sha256 ttl passwords pg input e w).1.db
  unfolding register
  register-IsOwner passwords pg input result e w u h =
      (Ensures-bind {P = UniqueRoles}
          {Q = λ (a : RegisterResult) d. IsOwner a.organization.id a.user.id d}
          (Ensures-raise_if _ _)
          λ _. Ensures-bind (Ensures-random_salt _) λ salt.
            Ensures-bind (Ensures-from_option _ _) λ stored.
              Ensures-bind
                (Ensures-assume (λ d q. q.0.0.0)
                  (Ensures-begin_func pg (register_tx-IsOwner input stored)))
                λ a. Ensures-bind (log_best_effort-IsOwner a.1 a.0 _) λ _.
                  Ensures-weaken
                    (λ x d q.
                      subst (λ (y : RegisterResult). IsOwner y.organization.id y.user.id d)
                        (sym q.1) q.0)
                    (Ensures-pure _)).at
        e w result u h

  -- What a registration that reports an error may leave behind: where the driver reports that the
  -- COMMIT failed, all that its transaction does.
  abbrev pub Remains : RegisterInput → Aftermath
  Remains input x e d d' =
      (x ≡ external) × (stored : List ℕ) × Completes (register_tx sha256 ttl input stored) e d d'

  -- A registration that returns an error has stored nothing, unless the error is that of the
  -- driver, because COMMIT failed: then it has stored nothing, or the user, the organization with
  -- its owner, and the session, as in a registration that succeeds, never a part of them.
  pub register-Atomic :
      (passwords : Passwords) (pg : Driver) (input : RegisterInput)
      → Atomic (Remains input) (register sha256 ttl passwords pg input)
  unfolding register
  register-Atomic passwords pg input = Atomic-bind _ _ (Reads-raise_if _ _) λ _.
      Atomic-bind _ _ (Reads-random_salt _) λ salt.
        Atomic-bind _ _ (Reads-from_option _ (passwords.hash salt input.password)) λ stored.
          Atomic-then _ _ (Atomic-begin_func pg _ λ e d d' all. (refl, stored, all))
            λ a. Total-bind _ _ (log_best_effort-Total _) λ _. Total-pure _
