-- ===== src/Auth/Reentry.antt =====
-- Register and Login fit: who has registered signs in with the same password.
use multi_tenant_authorizati.Base.{
  ℕ, suc, ◌+◌, ◌∙◌, ◌≡◌, refl, sym, subst, ap, true, false, ◌==◌, none, some, List, [], ◌∷◌, String,
  str_eq, arith, if◌then◌else◌,
}
use multi_tenant_authorizati.Apperrors.{Result, ok, err}
use multi_tenant_authorizati.Db.Rows.{exists_row, first_row, is_value}
use multi_tenant_authorizati.Db.Schema.{Digest, User, Session, Db}
use multi_tenant_authorizati.Db.Go.{Go, Env, World, pure, ◌>>=◌}
use multi_tenant_authorizati.Db.Driver.{Driver}
use multi_tenant_authorizati.Text.{contains_at}
use multi_tenant_authorizati.Audit.{LogEntry, log_best_effort}
use multi_tenant_authorizati.Membership.Repository.{user_exists}
use multi_tenant_authorizati.Auth.Repository.{NewSession, create_session}
use multi_tenant_authorizati.Auth.Service.{
  Passwords, TokenTtl, TokenPair, RegisterInput, RegisterResult, LoginInput, LoginResult, register,
  authenticate, login, session_of, new_tokens, generate_opaque_token,
}
use multi_tenant_authorizati.Auth.Sessions.{is_taken}
use multi_tenant_authorizati.Auth.SignIn.{authenticate_reads}
use multi_tenant_authorizati.Auth.Enrolment.{
  Fits, Enrolled, register-Enrolled, Enrolled-authenticate,
}

-- In the surroundings `e`, `m` returns a value where `P` holds, and then `Q` holds of it.
record Goes {A : Type 0} (e : Env) (P : World → Type 0) (m : Go A) (Q : A → World → Type 0)
    : Type 0 where
  at : (w : World) → P w → (a : A) × ((m e w).0 ≡ ok a) × Q a (m e w).1

bind_ok :
    {A B : Type 0} (m : Go A) (f : A → Go B) (e : Env) (w : World) (a : A)
    → (m e w).0 ≡ ok a
    → f a e (m e w).1 ≡ (m >>= f) e w
bind_ok {A} {B} m f e w a h = go (m e w) h
  where
    go :
        (r : Result A × World)
        → r.0 ≡ ok a
        → f a e r.1
          ≡ elim r.0 as (λ _. Result B × World) [ ok a ↦ f a e r.1 | err x ↦ (err x, r.1) ]
    go (ok b, v) h = let same : a ≡ b = ground arith in ap (λ x. f x e v) same
    go (err x, v) h = absurd (cc)

Goes-bind :
    {A B : Type 0} {e : Env} {P : World → Type 0} {m : Go A} {f : A → Go B} {R : A → World → Type 0}
    {Q : B → World → Type 0}
    → Goes e P m R
    → ((a : A) → Goes e (R a) (f a) Q)
    → Goes e P (m >>= f) Q
Goes-bind {A} {B} {e} {P} {m} {f} {R} {Q} first next = record {
  at = λ w p.
      let (a, done, r) = first.at w p in
      subst (λ (x : Result B × World). (b : B) × (x.0 ≡ ok b) × Q b x.1) (bind_ok m f e w a done)
        ((next a).at (m e w).1 r);
}

Goes-pure :
    {A : Type 0} {e : Env} {P : World → Type 0} {Q : A → World → Type 0} (a : A)
    → ((w : World) → P w → Q a w)
    → Goes e P (pure a) Q
Goes-pure a k = record { at = λ w p. (a, refl, k w p) }

-- The database answers, the random source works, and what it draws is not in the table of sessions.
pub record CanSignIn (sha256 : String → Digest) (e : Env) (ss : List Session) : Type 0 where
  pub answers : (k : ℕ) → e.fails k ≡ false
  pub draws : (k : ℕ) → (raw : String) × (e.entropy k ≡ some raw)
  pub free :
      (i j k : ℕ) (access refresh : String)
      → e.entropy j ≡ some access
      → e.entropy k ≡ some refresh
      → exists_row (is_taken (e.uuid i 0) (sha256 refresh) (sha256 access)) ss ≡ false

user_found :
    (email : String) (u : User) (us : List User)
    → first_row (λ (x : User). if is_value (λ s. str_eq s email) x.email then some x else none) us
      ≡ some u
    → exists_row (λ (x : User). x.id == u.id) us ≡ true
user_found email u [] found = cc
user_found email u (x ∷ us) found = ground (arith, user_found email u us)

log_best_effort-Goes :
    {e : Env} {S : Type 0} (l : LogEntry) → Goes e (λ _. S) (log_best_effort l) (λ _ _. S)
unfolding log_best_effort
log_best_effort-Goes l = record { at = λ w p. (tt, ground arith, p) }

module _ (sha256 : String → Digest) (ttl : TokenTtl) where
  -- Both tokens of the pair were drawn.
  abbrev Drawn : Env → TokenPair → Type 0
  Drawn e tokens =
      (j k : ℕ) × (e.entropy j ≡ some tokens.access_token)
      × (e.entropy k ≡ some tokens.refresh_token)

  new_tokens-Goes :
      {S : Type 0} (e : Env) (d : Db)
      → ((k : ℕ) → (raw : String) × (e.entropy k ≡ some raw))
      → Goes e
          (λ v. S × (v.db ≡ d))
          (new_tokens sha256 ttl)
          (λ tokens v. (S × (v.db ≡ d)) × Drawn e tokens)
  unfolding new_tokens generate_opaque_token
  new_tokens-Goes e d draws = record {
    at = λ w p.
        let (access, drawn) = draws w.step in
        let (refresh, drawn') = draws (suc w.step) in
        (
          record {
            access_token = access;
            access_token_expires_at = e.clock (suc (suc w.step)) + ttl.access;
            refresh_token = refresh;
            refresh_token_expires_at = e.clock (suc (suc w.step)) + ttl.refresh;
          },
          ground arith,
          ((p.0, ground arith), (w.step, suc w.step, drawn, drawn')),
        );
  }

  create_session-Goes :
      {S : Type 0} (e : Env) (d : Db) (s : NewSession)
      → ((k : ℕ) → e.fails k ≡ false)
      → ((k : ℕ)
          → exists_row (is_taken (e.uuid k 0) s.refresh_token_hash s.access_token_hash) d.sessions
            ≡ false)
      → user_exists s.user_id d ≡ true
      → Goes e (λ v. S × (v.db ≡ d)) (create_session s) (λ _ _. S)
  unfolding create_session
  create_session-Goes e d s up free known = record {
    at = λ w p.
        let quiet = up w.step in
        let new : exists_row (is_taken (e.uuid w.step 0) s.refresh_token_hash s.access_token_hash)
              w.db.sessions
            ≡ false =
          subst
            (λ (x : Db).
              exists_row (is_taken (e.uuid w.step 0) s.refresh_token_hash s.access_token_hash)
                x.sessions
              ≡ false)
            (sym p.1) (free w.step) in
        let there : user_exists s.user_id w.db ≡ true =
          subst (λ (x : Db). user_exists s.user_id x ≡ true) (sym p.1) known in
        (e.uuid w.step 0, ground arith, p.0);
  }

  module _ (passwords : Passwords) where
    -- The insert of a sign-in, whose tokens were drawn.
    inserted :
        (u a : User) (tokens : TokenPair) (agent ip : String) (e : Env) (d : Db)
        → CanSignIn sha256 e d.sessions
        → user_exists u.id d ≡ true
        → Goes e
            (λ v. ((a ≡ u) × (v.db ≡ d)) × Drawn e tokens)
            (create_session (session_of sha256 ttl a.id tokens agent ip))
            (λ _ _. a ≡ u)
    inserted u a tokens agent ip e d can known = record {
      at = λ w (at, drawn).
          (create_session-Goes e d (session_of sha256 ttl a.id tokens agent ip) can.answers
              (λ k.
                can.free k drawn.0 drawn.1 tokens.access_token tokens.refresh_token drawn.2 drawn.3)
              (subst (λ (y : User). user_exists y.id d ≡ true) (sym at.0) known)).at
            w at;
    }

    -- Behind the checks, a sign-in of an existing user goes through.
    opened :
        (input : LoginInput) (u : User) (e : Env) (w : World)
        → (authenticate sha256 ttl passwords input.identifier input.password e w).0 ≡ ok u
        → CanSignIn sha256 e w.db.sessions
        → user_exists u.id w.db ≡ true
        → Goes e (λ v. v ≡ w) (login sha256 ttl passwords input) (λ result _. result.user.id ≡ u.id)
    unfolding login
    opened input u e w done can known = Goes-bind checked λ a.
        Goes-bind (new_tokens-Goes e w.db can.draws) λ tokens.
          Goes-bind (inserted u a tokens _ _ e w.db can known) λ _.
            Goes-bind (log_best_effort-Goes _)
              λ _. Goes-pure _ (λ _ same. ap (λ (y : User). y.id) same)
      where
        checked :
            Goes e
              (λ v. v ≡ w)
              (authenticate sha256 ttl passwords input.identifier input.password)
              (λ a v. (a ≡ u) × (v.db ≡ w.db))
        checked = record {
          at = λ v same.
              let still =
                authenticate_reads sha256 ttl passwords input.identifier input.password e v in
              (
                u,
                subst
                    (λ y.
                      (authenticate sha256 ttl passwords input.identifier input.password e y).0
                      ≡ ok u)
                    (sym same) done,
                (refl, still ∙ ap (λ (x : World). x.db) same),
              );
        }

    -- Who has registered with an email signs in with it and the same password: on the database that
    -- a successful Register leaves, Login of the service returns tokens, for the user that Register
    -- returned, while the database answers, the random source works, and what it draws is not in
    -- the table of sessions. The validation of the request, which for Login refuses a password of
    -- more than 72 characters, is the handler's and comes before.
    pub register-login :
        (pg : Driver) (input : RegisterInput) (result : RegisterResult) (again : LoginInput)
        (e e' : Env) (w : World) (n : ℕ)
        → Fits passwords
        → contains_at input.email ≡ true
        → (register sha256 ttl passwords pg input e w).0 ≡ ok result
        → again.identifier ≡ input.email
        → again.password ≡ input.password
        → CanSignIn sha256 e' (register sha256 ttl passwords pg input e w).1.db.sessions
        → (r : LoginResult) × ((login sha256 ttl passwords again e'
              (record { db = (register sha256 ttl passwords pg input e w).1.db; step = n })).0
            ≡ ok r)
          × (r.user.id ≡ result.user.id)
    register-login pg input result again e e' w n fits mail done name word can =
        let d = (register sha256 ttl passwords pg input e w).1.db in
        let start : World = record { db = d; step = n } in
        let enrolled = register-Enrolled sha256 ttl passwords pg input result e w mail done in
        let (u, checked, same) =
          Enrolled-authenticate sha256 ttl passwords input result.user.id e' start fits mail
            (can.answers n) enrolled in
        let checked' =
          subst
            (λ (q : String × String). (authenticate sha256 ttl passwords q.0 q.1 e' start).0 ≡ ok u)
            (λ i. (sym name i, sym word i)) checked in
        let signed =
          (opened again u e' start checked' can (holder enrolled u same)).at start refl in
        (signed.0, signed.1, signed.2 ∙ same)
      where
        holder :
            Enrolled sha256 ttl passwords input result.user.id
              (register sha256 ttl passwords pg input e w).1.db
            → (u : User) → u.id ≡ result.user.id
            → user_exists u.id (register sha256 ttl passwords pg input e w).1.db ≡ true
        holder (stored, salt, bytes, made, (x, found, is, word', active)) u same =
            subst (λ k. user_exists k (register sha256 ttl passwords pg input e w).1.db ≡ true)
              (is ∙ sym same)
              (user_found input.email x (register sha256 ttl passwords pg input e w).1.db.users
                found)
