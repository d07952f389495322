-- ===== src/System/Sessions.antt =====
-- A token that is spent stays spent, whatever the services do afterwards.
use multi_tenant_authorizati.Base.{ℕ, ◌≡◌, ◌≢◌, subst, sym, String, Bool, arith, some, true}
use multi_tenant_authorizati.Apperrors.{ok}
use multi_tenant_authorizati.Db.Schema.{Uuid, Digest, Session, Db}
use multi_tenant_authorizati.Db.Go.{Env, World}
use multi_tenant_authorizati.Db.Driver.{Driver}
use multi_tenant_authorizati.Db.Keeps.{Keeps, keeps_rules}
use multi_tenant_authorizati.Authz.{Decision, record_decision}
use multi_tenant_authorizati.Organization.Repository.{get_by_id}
use multi_tenant_authorizati.Organization.Service.{
  create_organization, rename_organization, delete_organization,
}
use multi_tenant_authorizati.Auth.Repository.{
  session_by_access, get_active_session_by_access_token_hash, revoke_session, has_id, is_of_user,
  revoke_all_sessions_for_user,
}
use multi_tenant_authorizati.Auth.Service.{
  Passwords, TokenTtl, TokenPair, RefreshInput, refresh, logout, logout_all,
}
use multi_tenant_authorizati.Auth.Sessions.{IsValid}
use multi_tenant_authorizati.Auth.Rotation.{refresh-Rotates}
use multi_tenant_authorizati.Auth.Untouched.{
  OnSessions, unchanged, bootstrap-Untouched, update_name-Untouched, soft_delete-Untouched,
}
use multi_tenant_authorizati.Auth.Spent.{
  Token, of_access, of_refresh, Spent, register-Spent, login-Spent, refresh-Spent, logout-Spent,
  logout_all-Spent,
}
use multi_tenant_authorizati.Auth.Access.{sign_out as revoke_sessions}
use multi_tenant_authorizati.Auth.Refused.{
  sign_out-Spent_refresh, found-Spent-refresh, sign_out-Spent, lookup-refuses, refresh-refuses,
}
use multi_tenant_authorizati.System.Organizations.{perform_sessions}
use multi_tenant_authorizati.System.Calls.{
  Call, perform, Reaches, here, step, sign_up, sign_in, rotate, sign_out, sign_out_everywhere,
  found, rename, delete, change_members, note_decision,
}

module _ (k : Token) where
  record_decision-Spent : (c : Decision) → Keeps (OnSessions (Spent k)) (record_decision c)
  unfolding record_decision
  record_decision-Spent c = unchanged (Spent k) _ λ e w. ground arith

  create_organization-Spent :
      (pg : Driver) (user : Uuid) (name : String)
      → Keeps (OnSessions (Spent k)) (create_organization pg user name)
  unfolding create_organization get_by_id
  create_organization-Spent pg user name = search (keeps_rules, bootstrap-Untouched)

  delete_organization-Spent : (org : Uuid) → Keeps (OnSessions (Spent k)) (delete_organization org)
  unfolding delete_organization get_by_id
  delete_organization-Spent org = search (keeps_rules, soft_delete-Untouched) depth 9

  rename_organization-Spent :
      (org : Uuid) (name : String) → Keeps (OnSessions (Spent k)) (rename_organization org name)
  unfolding rename_organization
  rename_organization-Spent org name = update_name-Untouched (Spent k) org name

module _ (sha256 : String → Digest) (ttl : TokenTtl) (passwords : Passwords) (pg : Driver) where
  perform-Spent :
      (k : Token) (c : Call) → Keeps (OnSessions (Spent k)) (perform sha256 ttl passwords pg c)
  unfolding perform
  perform-Spent k (sign_up input) =
      search (keeps_rules, register-Spent k sha256 ttl passwords pg input)
  perform-Spent k (sign_in input) = search (keeps_rules, login-Spent k sha256 ttl passwords input)
  perform-Spent k (rotate input) = search (keeps_rules, refresh-Spent k sha256 ttl pg input)
  perform-Spent k (sign_out session) = logout-Spent k session
  perform-Spent k (sign_out_everywhere user) = logout_all-Spent k user
  perform-Spent k (found user name) = search (keeps_rules, create_organization-Spent k pg user name)
  perform-Spent k (rename org name) = search (keeps_rules, rename_organization-Spent k org name)
  perform-Spent k (delete org) = delete_organization-Spent k org
  perform-Spent k (change_members c) =
      unchanged (Spent k) _ (λ e w. perform_sessions sha256 pg c e w)
  perform-Spent k (note_decision c) = record_decision-Spent k c

  reaches-Spent :
      (k : Token) (d d' : Db)
      → Spent k d.sessions
      → Reaches sha256 ttl passwords pg d d'
      → Spent k d'.sessions
  reaches-Spent k d _ h here = h
  reaches-Spent k d _ h (step d' c e n r) =
      (perform-Spent k c).at e (record { db = d'; step = n }) (reaches-Spent k d d' h r)

  -- A refresh token is good for one rotation, for ever: once Refresh has returned tokens for it, in
  -- a sound session table, no later call of Refresh with it returns tokens, whatever calls the
  -- services take in between and whichever of them fail.
  pub refresh-Spent_forever :
      (input : RefreshInput) (tokens : TokenPair) (e : Env) (w : World)
      → IsValid w.db.sessions
      → (refresh sha256 ttl pg input e w).0 ≡ ok tokens
      → (d : Db) → Reaches sha256 ttl passwords pg (refresh sha256 ttl pg input e w).1.db d
      → (again : RefreshInput) (e' : Env) (n : ℕ) (more : TokenPair)
      → again.refresh_token ≡ input.refresh_token
      → (refresh sha256 ttl pg again e' (record { db = d; step = n })).0 ≢ ok more
  refresh-Spent_forever input tokens e w v done d reaches again e' n more same =
      let rotated = (refresh-Rotates sha256 ttl pg input tokens e w v done).3 in
      refresh-refuses sha256 ttl pg again more e' (record { db = d; step = n })
        (subst (λ x. Spent (of_refresh (sha256 x)) d.sessions) (sym same)
          (reaches-Spent (of_refresh (sha256 input.refresh_token))
            (refresh sha256 ttl pg input e w).1.db d
            (found-Spent-refresh (sha256 input.refresh_token) rotated.1
              (refresh sha256 ttl pg input e w).1.db rotated.0 rotated.2 rotated.3)
            reaches))

  signed_out_refused :
      (p : Session → Bool) (h : Digest) (s : Session) (e : Env) (w : World)
      → IsValid w.db.sessions
      → session_by_access h w.db ≡ some s
      → p s ≡ true
      → (revoke_sessions p e w).0 ≡ ok tt
      → (d : Db) → Reaches sha256 ttl passwords pg (revoke_sessions p e w).1.db d
      → (input : RefreshInput) → sha256 input.refresh_token ≡ s.refresh_token_hash
      → (e' : Env) (n : ℕ) (x : Session) (tokens : TokenPair)
      → ((get_active_session_by_access_token_hash h e' (record { db = d; step = n })).0 ≢ ok x)
        × ((refresh sha256 ttl pg input e' (record { db = d; step = n })).0 ≢ ok tokens)
  signed_out_refused p h s e w v known hit done d reaches input same e' n x tokens =
      let start = (revoke_sessions p e w).1.db in
      (
        lookup-refuses h d
            (reaches-Spent (of_access h) start d (sign_out-Spent p h s e w v known hit done)
              reaches)
            e' n x,
        refresh-refuses sha256 ttl pg input tokens e' (record { db = d; step = n })
            (subst (λ y. Spent (of_refresh y) d.sessions) (sym same)
              (reaches-Spent (of_refresh s.refresh_token_hash) start d
                (sign_out-Spent_refresh p h s e w v known hit done) reaches)),
      )

  -- A sign-out is final: once Logout has succeeded for the session of an access token, in a sound
  -- session table, the token is refused, and Refresh returns nothing for the refresh token of the
  -- session, at whatever time and whatever calls the services take meanwhile.
  pub logout-Spent_forever :
      (h : Digest) (s : Session) (e : Env) (w : World)
      → IsValid w.db.sessions
      → session_by_access h w.db ≡ some s
      → (logout s.id e w).0 ≡ ok tt
      → (d : Db) → Reaches sha256 ttl passwords pg (logout s.id e w).1.db d
      → (input : RefreshInput) → sha256 input.refresh_token ≡ s.refresh_token_hash
      → (e' : Env) (n : ℕ) (x : Session) (tokens : TokenPair)
      → ((get_active_session_by_access_token_hash h e' (record { db = d; step = n })).0 ≢ ok x)
        × ((refresh sha256 ttl pg input e' (record { db = d; step = n })).0 ≢ ok tokens)
  unfolding logout revoke_session
  logout-Spent_forever h s e w v known done d reaches input same e' n x tokens =
      signed_out_refused (has_id s.id) h s e w v known (ground arith) done d reaches input same e' n
        x tokens

  -- LogoutAll is final: once it has succeeded for the user of a session, in a sound session table,
  -- the access token of the session is refused, and Refresh returns nothing for its refresh token,
  -- at whatever time and whatever calls the services take meanwhile.
  pub logout_all-Spent_forever :
      (h : Digest) (s : Session) (e : Env) (w : World)
      → IsValid w.db.sessions
      → session_by_access h w.db ≡ some s
      → (logout_all s.user_id e w).0 ≡ ok tt
      → (d : Db) → Reaches sha256 ttl passwords pg (logout_all s.user_id e w).1.db d
      → (input : RefreshInput) → sha256 input.refresh_token ≡ s.refresh_token_hash
      → (e' : Env) (n : ℕ) (x : Session) (tokens : TokenPair)
      → ((get_active_session_by_access_token_hash h e' (record { db = d; step = n })).0 ≢ ok x)
        × ((refresh sha256 ttl pg input e' (record { db = d; step = n })).0 ≢ ok tokens)
  unfolding logout_all revoke_all_sessions_for_user
  logout_all-Spent_forever h s e w v known done d reaches input same e' n x tokens =
      signed_out_refused (is_of_user s.user_id) h s e w v known (ground arith) done d reaches input
        same e' n x tokens
