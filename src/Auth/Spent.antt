-- ===== src/Auth/Spent.antt =====
-- Tokens of dead sessions: no statement of the service brings one back to life.
use multi_tenant_authorizati.Base.{
  ◌≡◌, refl, Bool, true, false, ◌==◌, String, List, [], ◌∷◌, ℕ, arith,
}
use multi_tenant_authorizati.Apperrors.{Result, ok, err, refresh_replay}
use multi_tenant_authorizati.Db.Rows.{exists_row}
use multi_tenant_authorizati.Db.Schema.{Uuid, Time, Digest, Session}
use multi_tenant_authorizati.Db.Driver.{Driver}
use multi_tenant_authorizati.Db.Keeps.{Keeps, keeps_rules}
use multi_tenant_authorizati.Auth.Repository.{
  NewSession, create_session, create_session_in_family, revoke_session, revoke_family,
  revoke_all_sessions_for_user, revoke_session_if_active, get_session_for_refresh, is_unrevoked,
  in_family, has_id, is_of_user,
}
use multi_tenant_authorizati.Auth.Service.{
  Passwords, TokenTtl, TokenPair, RegisterInput, LoginInput, RefreshInput, register, register_tx,
  login, refresh_tx, refresh, revoke_replayed, after_rotation, logout, logout_all,
}
use multi_tenant_authorizati.Auth.Sessions.{revoked_rows, revoke_at, is_taken, revoke-not-live}
use multi_tenant_authorizati.Auth.Rotation.{new_row}
use multi_tenant_authorizati.Auth.System.{Keeps-try}
use multi_tenant_authorizati.Auth.Untouched.{
  OnSessions, create_user-Untouched, bootstrap-Untouched, new_tokens-Untouched,
  authenticate-Untouched, log_best_effort-Untouched,
}

-- A token, by the UNIQUE column that its hash stands in.
pub data Token : Type 0 where
  of_access of_refresh : Digest → Token

abbrev pub answers_to : Token → Session → Bool
answers_to (of_access h) s = s.access_token_hash == h
answers_to (of_refresh h) s = s.refresh_token_hash == h

-- The token is that of a session, and of none that is live.
abbrev pub Spent : Token → List Session → Type 0
Spent k ss =
    (exists_row (answers_to k) ss ≡ true) × (exists_row (is_unrevoked (answers_to k)) ss ≡ false)

module _ (p : Session → Bool) (t : Time) where
  revoked-known :
      (q : Session → Bool) (same : (s : Session) → q (revoke_at t s) ≡ q s) (ss : List Session)
      → exists_row q ss ≡ true
      → exists_row q (revoked_rows p t ss) ≡ true
  revoked-known q same [] known = cc
  revoked-known q same (s ∷ ss) known = ground (arith, same s, revoked-known q same ss)

  revoked-Spent : (k : Token) (ss : List Session) → Spent k ss → Spent k (revoked_rows p t ss)
  revoked-Spent (of_access h) ss (known, dead) = (
    revoked-known (answers_to (of_access h)) (λ s. refl) ss known,
    revoke-not-live p t (is_unrevoked (answers_to (of_access h))) (λ s r. ground arith) ss dead,
  )
  revoked-Spent (of_refresh h) ss (known, dead) = (
    revoked-known (answers_to (of_refresh h)) (λ s. refl) ss known,
    revoke-not-live p t (is_unrevoked (answers_to (of_refresh h))) (λ s r. ground arith) ss dead,
  )

-- The UNIQUE columns keep a new session from taking the token.
not_taken :
    (k : Token) (n : Session) (ss : List Session)
    → exists_row (is_taken n.id n.refresh_token_hash n.access_token_hash) ss ≡ false
    → exists_row (answers_to k) ss ≡ true
    → answers_to k n ≡ false
not_taken (of_access h) n [] free known = cc
not_taken (of_access h) n (s ∷ ss) free known = ground (arith, not_taken (of_access h) n ss)
not_taken (of_refresh h) n [] free known = cc
not_taken (of_refresh h) n (s ∷ ss) free known = ground (arith, not_taken (of_refresh h) n ss)

inserted-Spent :
    (k : Token) (n : Session) (ss : List Session)
    → Spent k ss
    → exists_row (is_taken n.id n.refresh_token_hash n.access_token_hash) ss ≡ false
    → Spent k (n ∷ ss)
inserted-Spent k n ss (known, dead) free =
    let off = not_taken k n ss free known in (ground arith, ground arith)

module _ (k : Token) where
  create_session-Spent : (s : NewSession) → Keeps (OnSessions (Spent k)) (create_session s)
  unfolding create_session
  create_session-Spent s = record {
    at = λ e w h. ground (
      arith,
      inserted-Spent k (new_row (e.uuid w.step 0) (e.uuid w.step 1) (e.clock w.step) s)
          w.db.sessions h,
    );
  }

  create_session_in_family-Spent :
      (family : Uuid) (s : NewSession)
      → Keeps (OnSessions (Spent k)) (create_session_in_family family s)
  unfolding create_session_in_family
  create_session_in_family-Spent family s = record {
    at = λ e w h. ground (
      arith,
      inserted-Spent k (new_row (e.uuid w.step 0) family (e.clock w.step) s) w.db.sessions h,
    );
  }

  revoke_session-Spent : (id : Uuid) → Keeps (OnSessions (Spent k)) (revoke_session id)
  unfolding revoke_session
  revoke_session-Spent id = record {
    at = λ e w h. ground (arith, revoked-Spent (has_id id) (e.clock w.step) k w.db.sessions h);
  }

  revoke_session_if_active-Spent :
      (id : Uuid) → Keeps (OnSessions (Spent k)) (revoke_session_if_active id)
  unfolding revoke_session_if_active
  revoke_session_if_active-Spent id = record {
    at = λ e w h. ground (arith, revoked-Spent (has_id id) (e.clock w.step) k w.db.sessions h);
  }

  revoke_family-Spent : (family : Uuid) → Keeps (OnSessions (Spent k)) (revoke_family family)
  unfolding revoke_family
  revoke_family-Spent family = record {
    at = λ e w h.
        ground (arith, revoked-Spent (in_family family) (e.clock w.step) k w.db.sessions h);
  }

  revoke_all-Spent :
      (user : Uuid) → Keeps (OnSessions (Spent k)) (revoke_all_sessions_for_user user)
  unfolding revoke_all_sessions_for_user
  revoke_all-Spent user = record {
    at =
        λ e w h. ground (arith, revoked-Spent (is_of_user user) (e.clock w.step) k w.db.sessions h);
  }

ruleset spent_rules = (
  keeps_rules, Keeps-try, create_session-Spent, create_session_in_family-Spent,
  revoke_session-Spent, revoke_session_if_active-Spent, revoke_family-Spent, revoke_all-Spent,
  create_user-Untouched, bootstrap-Untouched, new_tokens-Untouched, authenticate-Untouched,
  log_best_effort-Untouched,
)

module _ (k : Token) (sha256 : String → Digest) (ttl : TokenTtl) where
  register_tx-Spent :
      (input : RegisterInput) (stored : List ℕ)
      → Keeps (OnSessions (Spent k)) (register_tx sha256 ttl input stored)
  unfolding register_tx
  register_tx-Spent input stored = search spent_rules depth 11

  pub register-Spent :
      (passwords : Passwords) (pg : Driver) (input : RegisterInput)
      → Keeps (OnSessions (Spent k)) (register sha256 ttl passwords pg input)
  unfolding register
  register-Spent passwords pg input = search (spent_rules, register_tx-Spent) depth 11

  pub login-Spent :
      (passwords : Passwords) (input : LoginInput)
      → Keeps (OnSessions (Spent k)) (login sha256 ttl passwords input)
  unfolding login
  login-Spent passwords input = search spent_rules depth 11

  refresh_tx-Spent :
      (input : RefreshInput) → Keeps (OnSessions (Spent k)) (refresh_tx sha256 ttl input)
  unfolding refresh_tx get_session_for_refresh
  refresh_tx-Spent input = search spent_rules depth 15

  after_rotation-Spent :
      (input : RefreshInput) (r : Result TokenPair)
      → Keeps (OnSessions (Spent k)) (after_rotation sha256 ttl input r)
  unfolding revoke_replayed
  after_rotation-Spent input (ok tokens) = search spent_rules
  after_rotation-Spent input (err (refresh_replay session user family)) = search spent_rules depth 9
  after_rotation-Spent input (err x) = search spent_rules

  pub refresh-Spent :
      (pg : Driver) (input : RefreshInput)
      → Keeps (OnSessions (Spent k)) (refresh sha256 ttl pg input)
  unfolding refresh
  refresh-Spent pg input = search (spent_rules, refresh_tx-Spent, after_rotation-Spent) depth 9

pub logout-Spent : (k : Token) (session : Uuid) → Keeps (OnSessions (Spent k)) (logout session)
unfolding logout
logout-Spent k session = revoke_session-Spent k session

pub logout_all-Spent : (k : Token) (user : Uuid) → Keeps (OnSessions (Spent k)) (logout_all user)
unfolding logout_all
logout_all-Spent k user = revoke_all-Spent k user
