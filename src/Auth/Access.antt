-- ===== src/Auth/Access.antt =====
-- Access tokens: which sessions the middleware accepts, and how a sign-out ends them.
use multi_tenant_authorizati.Base.{
  ℕ, suc, ◌≤◌, ◌≡◌, ◌≢◌, subst, sym, refl, inl, inr, Bool, true, false, ◌&&◌, some, arith, ◌==◌,
  ltb, Option-cases, Bool-cases,
}
use multi_tenant_authorizati.Apperrors.{ok}
use multi_tenant_authorizati.Db.Rows.{exists_row}
use multi_tenant_authorizati.Db.Schema.{Time, Digest, User, Session, Db, user_active}
use multi_tenant_authorizati.Db.Go.{Go, Env, World, pure, ◌>>=◌, exec_rows}
use multi_tenant_authorizati.Auth.Repository.{
  has_id, is_of_user, has_active_user, session_by_access, revoke_where,
  get_active_session_by_access_token_hash, revoke_session, revoke_all_sessions_for_user,
}
use multi_tenant_authorizati.Auth.Service.{logout, logout_all}
use multi_tenant_authorizati.Auth.Sessions.{
  revoked_rows, session_where-revoked, session_where-passes,
}

abbrev access_test : Digest → Db → Session → Bool
access_test h d s = s.access_token_hash == h && has_active_user d s

-- The session is the one of the access token: it is in the table, not revoked, not expired at `t`,
-- and its user is active.
abbrev pub Accepts : Digest → Time → Session → Db → Type 0
Accepts h t s d =
    (session_by_access h d ≡ some s)
    × (s.access_token_hash ≡ h)
    × (exists_row (λ (u : User). u.id == s.user_id && user_active u.status) d.users ≡ true)
    × (s.revoked ≡ false)
    × (t ≤ s.access_token_expires_at)

passes-Accepts :
    (h : Digest) (t : Time) (s : Session) (d : Db)
    → session_by_access h d ≡ some s
    → s.revoked ≡ false
    → ltb s.access_token_expires_at t ≡ false
    → access_test h d s ≡ true
    → Accepts h t s d
passes-Accepts h t s d found live young test =
    (found, ground arith, ground arith, live, ground arith)

pub looked_up :
    (h : Digest) (s : Session) (e : Env) (w : World)
    → (get_active_session_by_access_token_hash h e w).0 ≡ ok s
    → (session_by_access h w.db ≡ some s)
      × (s.revoked ≡ false)
      × (ltb s.access_token_expires_at (e.clock (suc w.step)) ≡ false)
unfolding get_active_session_by_access_token_hash
looked_up h s e w done = elim (Option-cases (session_by_access h w.db)) [
  | inl missing ↦ ground arith
  | inr (x, found) ↦ ground arith
]

-- A session that the lookup by an access token returns is accepted, at the time that it read.
pub get_active_session-Accepts :
    (h : Digest) (s : Session) (e : Env) (w : World)
    → (get_active_session_by_access_token_hash h e w).0 ≡ ok s
    → Accepts h (e.clock (suc w.step)) s w.db
get_active_session-Accepts h s e w done =
    let q = looked_up h s e w done in
    passes-Accepts h (e.clock (suc w.step)) s w.db q.0 q.1 q.2
      (session_where-passes (access_test h w.db) s w.db.sessions q.0)

-- What a revocation has reached is accepted no more.
revoked-refused :
    (p : Session → Bool) (h : Digest) (s : Session) (t : Time) (d : Db)
    → session_by_access h d ≡ some s
    → p s ≡ true
    → (e : Env) (n : ℕ) (x : Session)
    → ¬ (
        (get_active_session_by_access_token_hash h e
          (record { db = record d { sessions = revoked_rows p t d.sessions }; step = n })).0
        ≡ ok x)
revoked-refused p h s t d found hit e n x done =
    let after = session_where-revoked (access_test h d) p t d.sessions (λ x. refl) s found in
    let q = looked_up h x e _ done in ground arith

-- What both sign-outs do.
abbrev pub sign_out : (Session → Bool) → Go Unit
sign_out p = do _ ← exec_rows (revoke_where p); pure tt

sign_out-refuses :
    (p : Session → Bool) (h : Digest) (s : Session) (e : Env) (w : World)
    → session_by_access h w.db ≡ some s
    → p s ≡ true
    → (sign_out p e w).0 ≡ ok tt
    → (e' : Env) (n : ℕ) (x : Session)
    → (get_active_session_by_access_token_hash h e'
        (record { db = (sign_out p e w).1.db; step = n })).0
      ≢ ok x
sign_out-refuses p h s e w found hit done e' n x = elim (Bool-cases (e.fails w.step)) [
  | inl down ↦ ground arith
  | inr up ↦
      let after : (sign_out p e w).1.db
          ≡ record w.db { sessions = revoked_rows p (e.clock w.step) w.db.sessions } =
        ground arith in
      subst
        (λ d. (get_active_session_by_access_token_hash h e' (record { db = d; step = n })).0 ≢ ok x)
        (sym after) (revoked-refused p h s (e.clock w.step) w.db found hit e' n x)
]

-- Logout ends the session: once it has succeeded, the access token of the session is refused, at
-- whatever time.
logout-refuses :
    (h : Digest) (s : Session) (e : Env) (w : World)
    → session_by_access h w.db ≡ some s
    → (logout s.id e w).0 ≡ ok tt
    → (e' : Env) (n : ℕ) (x : Session)
    → (get_active_session_by_access_token_hash h e'
        (record { db = (logout s.id e w).1.db; step = n })).0
      ≢ ok x
unfolding logout revoke_session
logout-refuses h s e w found done = sign_out-refuses (has_id s.id) h s e w found (ground arith) done

-- LogoutAll ends every session of the user: once it has succeeded, the access token of each is
-- refused, at whatever time.
logout_all-refuses :
    (h : Digest) (s : Session) (e : Env) (w : World)
    → session_by_access h w.db ≡ some s
    → (logout_all s.user_id e w).0 ≡ ok tt
    → (e' : Env) (n : ℕ) (x : Session)
    → (get_active_session_by_access_token_hash h e'
        (record { db = (logout_all s.user_id e w).1.db; step = n })).0
      ≢ ok x
unfolding logout_all revoke_all_sessions_for_user
logout_all-refuses h s e w found done =
    sign_out-refuses (is_of_user s.user_id) h s e w found (ground arith) done
