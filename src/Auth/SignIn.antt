-- ===== src/Auth/SignIn.antt =====
-- Login and the middleware fit: the tokens that a sign-in returns are those of a live session.
use multi_tenant_authorizati.Base.{
  ◌≡◌, refl, sym, subst, inl, inr, true, false, ◌&&◌, ◌==◌, Option, some, none, List, [], ◌∷◌,
  String, str_eq, arith, if◌then◌else◌, Bool-cases,
}
use multi_tenant_authorizati.Apperrors.{ok}
use multi_tenant_authorizati.Db.Rows.{exists_row, first_row, is_value}
use multi_tenant_authorizati.Db.Schema.{Uuid, Time, Digest, User, Session, Db, user_active}
use multi_tenant_authorizati.Db.Go.{Env, World}
use multi_tenant_authorizati.Db.Ensures.{Ensures, Ensures-bind, Ensures-weaken, Ensures-pure}
use multi_tenant_authorizati.Audit.{LogEntry, log, log_best_effort}
use multi_tenant_authorizati.Text.{contains_at}
use multi_tenant_authorizati.Auth.Repository.{
  NewSession, create_session, session_by_access, session_by_refresh, get_user_by_identifier,
}
use multi_tenant_authorizati.Auth.Service.{
  Passwords, TokenTtl, LoginInput, LoginResult, login, authenticate,
}
use multi_tenant_authorizati.Auth.Credentials.{user_of, authenticate-Admits}
use multi_tenant_authorizati.Auth.Rotation.{new_row, new_tokens-Ensures}

-- The user exists and is active.
abbrev pub IsActiveUser : Uuid → Db → Type 0
IsActiveUser id d = exists_row (λ (u : User). u.id == id && user_active u.status) d.users ≡ true

-- One live session of the user answers to the access hash and to the refresh hash, until the two
-- times.
abbrev pub SignedIn : Uuid → Digest → Digest → Time → Time → Db → Type 0
SignedIn user access refresh until renew d =
    (s : Session) × (session_by_access access d ≡ some s)
    × (session_by_refresh refresh d ≡ some s)
    × (s.user_id ≡ user)
    × (s.revoked ≡ false)
    × (s.access_token_expires_at ≡ until)
    × (s.refresh_token_expires_at ≡ renew)

found_active :
    (column : User → Option String) (v : String) (u : User) (us : List User)
    → first_row (λ (x : User). if is_value (λ s. str_eq s v) (column x) then some x else none) us
      ≡ some u
    → user_active u.status ≡ true
    → exists_row (λ (x : User). x.id == u.id && user_active x.status) us ≡ true
found_active column v u [] h active = cc
found_active column v u (x ∷ us) h active =
    elim (Bool-cases (is_value (λ s. str_eq s v) (column x))) [
      | inl hit ↦ ground arith
      | inr miss ↦ ground (arith, found_active column v u us)
    ]

user_of-active :
    (identifier : String) (u : User) (d : Db)
    → user_of identifier d ≡ some u
    → user_active u.status ≡ true
    → IsActiveUser u.id d
user_of-active identifier u d h active = elim (Bool-cases (contains_at identifier)) [
  | inl mail ↦ found_active (λ x. x.email) identifier u d.users (ground arith) active
  | inr phone ↦ found_active (λ x. x.phone) identifier u d.users (ground arith) active
]

pub create_session-SignedIn :
    (s : NewSession)
    → Ensures (IsActiveUser s.user_id) (create_session s) (λ _ d.
      SignedIn s.user_id s.access_token_hash s.refresh_token_hash s.access_token_expires_at
        s.refresh_token_expires_at d)
unfolding create_session
create_session-SignedIn s = record {
  at = λ e w a p h. (
    new_row (e.uuid w.step 0) (e.uuid w.step 1) (e.clock w.step) s,
    ground arith,
    ground arith,
    refl,
    refl,
    refl,
    refl,
  );
}

pub log_best_effort-SignedIn :
    (l : LogEntry) (user : Uuid) (access refresh : Digest) (until renew : Time)
    → Ensures
        (SignedIn user access refresh until renew)
        (log_best_effort l)
        (λ _ d. SignedIn user access refresh until renew d)
unfolding log_best_effort log
log_best_effort-SignedIn l user access refresh until renew = record {
  at = λ e w a p h. ground arith;
}

module _ (sha256 : String → Digest) (ttl : TokenTtl) (passwords : Passwords) where
  pub authenticate_reads :
      (identifier password : String) (e : Env) (w : World)
      → (authenticate sha256 ttl passwords identifier password e w).1.db ≡ w.db
  unfolding authenticate get_user_by_identifier
  authenticate_reads identifier password e w = ground arith

  authenticate-IsActiveUser :
      (identifier password : String)
      → Ensures
          (λ _. Unit {0})
          (authenticate sha256 ttl passwords identifier password)
          (λ u d. IsActiveUser u.id d)
  authenticate-IsActiveUser identifier password = record {
    at = λ e w u p h.
        let q = authenticate-Admits sha256 ttl passwords identifier password u e w h in
        subst (IsActiveUser u.id) (sym (authenticate_reads identifier password e w))
          (user_of-active identifier u w.db q.0 q.2);
  }

  -- A sign-in that succeeds has opened a session: the access token and the refresh token that it
  -- returns are those of one unrevoked session of the user that it returns, for the two times
  -- returned.
  pub login-SignedIn :
      (input : LoginInput) (result : LoginResult) (e : Env) (w : World)
      → (login sha256 ttl passwords input e w).0 ≡ ok result
      → SignedIn result.user.id
          (sha256 result.tokens.access_token)
          (sha256 result.tokens.refresh_token)
          result.tokens.access_token_expires_at
          result.tokens.refresh_token_expires_at
          (login sha256 ttl passwords input e w).1.db
  unfolding login
  login-SignedIn input result e w h =
      (Ensures-bind {P = λ _. Unit {0}} {Q = Goal}
          (authenticate-IsActiveUser input.identifier input.password)
          λ u. Ensures-bind (new_tokens-Ensures sha256 ttl) λ tokens.
            Ensures-bind (create_session-SignedIn _) λ _.
              Ensures-bind (log_best_effort-SignedIn _ _ _ _ _ _) λ _.
                Ensures-weaken (λ a d q. subst (λ x. Goal x d) (sym q.1) q.0) (Ensures-pure _)).at
        e w result tt h
    where
      Goal : LoginResult → Db → Type 0
      Goal r d =
          SignedIn r.user.id (sha256 r.tokens.access_token) (sha256 r.tokens.refresh_token)
            r.tokens.access_token_expires_at r.tokens.refresh_token_expires_at d
