-- ===== src/Auth/Families.antt =====
-- Sign-ins open families of their own: the session table stays sound when Login and Register insert
-- into it.
use multi_tenant_authorizati.Base.{ℕ, ◌≡◌, refl, false, String, List, arith, subst, sym}
use multi_tenant_authorizati.Apperrors.{Result, ok, err}
use multi_tenant_authorizati.Db.Rows.{exists_row}
use multi_tenant_authorizati.Db.Schema.{Digest, Session, Db}
use multi_tenant_authorizati.Db.Go.{Go, Env, World, ◌>>=◌}
use multi_tenant_authorizati.Db.Driver.{Driver, Transacted-keeps}
use multi_tenant_authorizati.Db.Keeps.{
  Keeps, Keeps-random_salt, Keeps-from_option, Keeps-raise_if, Keeps-pure, Keeps-bind,
}
use multi_tenant_authorizati.Audit.{LogEntry, log_best_effort}
use multi_tenant_authorizati.Auth.Repository.{NewSession, create_session, is_unrevoked, in_family}
use multi_tenant_authorizati.Auth.Service.{
  Passwords, TokenTtl, RegisterInput, LoginInput, register_tx, register, login,
}
use multi_tenant_authorizati.Auth.Sessions.{IsValid, insert-IsValid}
use multi_tenant_authorizati.Auth.Rotation.{new_row}
use multi_tenant_authorizati.Auth.Untouched.{
  create_user-Untouched, bootstrap-Untouched, new_tokens-Untouched, authenticate-Untouched,
  log_best_effort-Untouched,
}

abbrev pub Sound : Db → Type 0
Sound d = IsValid d.sessions

-- No family identifier that the database would draw is that of a live session.
abbrev pub DrawsFresh : Env → List Session → Type 0
DrawsFresh e ss = (k : ℕ) → exists_row (is_unrevoked (in_family (e.uuid k 1))) ss ≡ false

-- In the surroundings `e`, `m` leads from `P` to `Q`, whether it returns or fails.
record Leads (e : Env) {A : Type 0} (P Q : Db → Type 0) (m : Go A) : Type 0 where
  at : (w : World) → P w.db → Q (m e w).1.db

Keeps-Leads : {A : Type 0} {P : Db → Type 0} {m : Go A} (e : Env) → Keeps P m → Leads e P P m
Keeps-Leads e k = record { at = λ w p. k.at e w p }

Leads-bind :
    {A B : Type 0} {P R Q : Db → Type 0} {m : Go A} {f : A → Go B} (e : Env)
    → ((d : Db) → R d → Q d)
    → Leads e P R m
    → ((a : A) → Leads e R Q (f a))
    → Leads e P Q (m >>= f)
Leads-bind {A} {B} {P} {R} {Q} {m} {f} e weaker km kf = record {
  at = λ w p. go (m e w) (km.at w p);
}
  where
    go :
        (r : Result A × World)
        → R r.1.db
        → Q (elim r.0 as (λ _. Result B × World) [ ok a ↦ f a e r.1 | err x ↦ (err x, r.1) ]).1.db
    go (ok a, w) p = (kf a).at w p
    go (err x, w) p = weaker w.db p

pub log_best_effort-Sound : (l : LogEntry) → Keeps Sound (log_best_effort l)
log_best_effort-Sound l = log_best_effort-Untouched IsValid l

module _ (ss : List Session) where
  abbrev Are : List Session → Type 0
  Are xs = xs ≡ ss

  abbrev Still : Db → Type 0
  Still d = d.sessions ≡ ss

  module _ (e : Env) (valid : IsValid ss) (fresh : DrawsFresh e ss) where
    Still-Sound : (d : Db) → Still d → Sound d
    Still-Sound d same = subst IsValid (sym same) valid

    create_session-Sound : (s : NewSession) → Leads e Still Sound (create_session s)
    unfolding create_session
    create_session-Sound s = record {
      at = λ w same.
          let free =
            subst (λ xs. exists_row (is_unrevoked (in_family (e.uuid w.step 1))) xs ≡ false)
              (sym same) (fresh w.step) in
          ground (
            arith,
            Still-Sound w.db same,
            insert-IsValid (new_row (e.uuid w.step 0) (e.uuid w.step 1) (e.clock w.step) s)
                w.db.sessions,
          );
    }

    Sound-Leads : {A : Type 0} {m : Go A} → Keeps Sound m → Leads e Sound Sound m
    Sound-Leads k = Keeps-Leads e k

    still :
        {A B : Type 0} {m : Go A} {f : A → Go B}
        → Keeps Still m
        → ((a : A) → Leads e Still Sound (f a))
        → Leads e Still Sound (m >>= f)
    still k next = Leads-bind e Still-Sound (Keeps-Leads e k) next

    opened :
        {A B : Type 0} {m : Go A} {f : A → Go B}
        → Leads e Still Sound m
        → ((a : A) → Keeps Sound (f a))
        → Leads e Still Sound (m >>= f)
    opened k next = Leads-bind e (λ d s. s) k (λ a. Keeps-Leads e (next a))

    module _ (sha256 : String → Digest) (ttl : TokenTtl) (passwords : Passwords) where
      register_tx-Leads :
          (input : RegisterInput) (stored : List ℕ)
          → Leads e Still Sound (register_tx sha256 ttl input stored)
      unfolding register_tx
      register_tx-Leads input stored = still (create_user-Untouched Are _) λ user.
          still (bootstrap-Untouched Are _ _ user) λ org.
            still (new_tokens-Untouched Are sha256 ttl)
              λ tokens. opened (create_session-Sound _) λ _. Keeps-pure _

      registration-Leads :
          (pg : Driver) (input : RegisterInput) (stored : List ℕ)
          → Leads e Still Sound (pg.begin_func (register_tx sha256 ttl input stored))
      registration-Leads pg input stored = record {
        at = λ w same.
            Transacted-keeps (λ d. Sound d) (register_tx sha256 ttl input stored) e w
              (Still-Sound w.db same)
              (λ k a done.
                (register_tx-Leads input stored).at (record { db = w.db; step = k }) same)
              (pg.transacts (register_tx sha256 ttl input stored) e w);
      }

      login-Leads : (input : LoginInput) → Leads e Still Sound (login sha256 ttl passwords input)
      unfolding login
      login-Leads input =
          still (authenticate-Untouched Are sha256 ttl passwords input.identifier input.password)
            λ user. still (new_tokens-Untouched Are sha256 ttl) λ tokens.
              opened (create_session-Sound _)
                λ _. Keeps-bind _ _ (log_best_effort-Sound _) λ _. Keeps-pure _

      register-Leads :
          (pg : Driver) (input : RegisterInput)
          → Leads e Still Sound (register sha256 ttl passwords pg input)
      unfolding register
      register-Leads pg input = still (Keeps-raise_if _ _) λ _. still (Keeps-random_salt _) λ salt.
          still (Keeps-from_option _ _) λ stored.
            opened (registration-Leads pg input stored)
              λ a. Keeps-bind _ _ (log_best_effort-Sound _) λ _. Keeps-pure _

module _ (sha256 : String → Digest) (ttl : TokenTtl) (passwords : Passwords) where
  -- A call in surroundings that draw fresh families keeps the sessions sound.
  pub login-Sound :
      (input : LoginInput) (e : Env) (w : World)
      → Sound w.db
      → DrawsFresh e w.db.sessions
      → Sound (login sha256 ttl passwords input e w).1.db
  login-Sound input e w v fresh =
      (login-Leads w.db.sessions e v fresh sha256 ttl passwords input).at w refl

  pub register-Sound :
      (pg : Driver) (input : RegisterInput) (e : Env) (w : World)
      → Sound w.db
      → DrawsFresh e w.db.sessions
      → Sound (register sha256 ttl passwords pg input e w).1.db
  register-Sound pg input e w v fresh =
      (register-Leads w.db.sessions e v fresh sha256 ttl passwords pg input).at w refl
