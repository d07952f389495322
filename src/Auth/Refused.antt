-- ===== src/Auth/Refused.antt =====
-- How a token comes to be spent, and what it meets from then on.
use multi_tenant_authorizati.Base.{
  ◌≡◌, ◌≢◌, refl, inl, inr, Bool, true, false, ◌&&◌, ◌==◌, String, List, [], ◌∷◌, ℕ, arith, sym,
  subst, Bool-cases, Option-cases, some, if◌then◌else◌,
}
use multi_tenant_authorizati.Apperrors.{Result, ok, err}
use multi_tenant_authorizati.Db.Rows.{exists_row, Unique}
use multi_tenant_authorizati.Db.Schema.{Digest, Session, Db}
use multi_tenant_authorizati.Db.Go.{Env, World}
use multi_tenant_authorizati.Db.Driver.{Driver}
use multi_tenant_authorizati.Db.Ensures.{Ensures-begin_func}
use multi_tenant_authorizati.Auth.Repository.{
  is_unrevoked, session_by_access, session_by_refresh, has_active_user, get_session_for_refresh,
  get_active_session_by_access_token_hash,
}
use multi_tenant_authorizati.Auth.Service.{
  TokenTtl, TokenPair, RefreshInput, refresh_tx, refresh, after_rotation,
}
use multi_tenant_authorizati.Auth.Sessions.{
  IsValid, same_refresh, session_where, session_where-revoked, revoke-IsValid, revoked_rows,
  revoke_at,
}
use multi_tenant_authorizati.Auth.Rotation.{not_ok}
use multi_tenant_authorizati.Auth.Access.{looked_up, sign_out}
use multi_tenant_authorizati.Auth.Spent.{Spent, of_access, of_refresh}

module _ (column : Session → Digest) (h : Digest) where
  abbrev has_hash : Session → Bool
  has_hash s = column s == h

  others_dead :
      (x : Session) (ss : List Session)
      → has_hash x ≡ true
      → exists_row (λ t. column t == column x) ss ≡ false
      → exists_row (is_unrevoked has_hash) ss ≡ false
  others_dead x [] hit alone = refl
  others_dead x (s ∷ ss) hit alone = ground (arith, others_dead x ss)

  others_differ :
      (x : Session) (ss : List Session)
      → has_hash x ≡ true
      → exists_row (λ t. column t == column x) ss ≡ false
      → exists_row has_hash ss ≡ false
  others_differ x [] hit alone = refl
  others_differ x (s ∷ ss) hit alone = ground (arith, others_differ x ss)

  module _ (b : Session → Bool) where
    found_known :
        (r : Session) (ss : List Session)
        → session_where (λ s. has_hash s && b s) ss ≡ some r
        → exists_row has_hash ss ≡ true
    found_known r [] found = cc
    found_known r (s ∷ ss) found = ground (arith, found_known r ss)

    -- Where the column is unique, the session that a query finds is the only one.
    found_dead :
        (r : Session) (ss : List Session)
        → Unique (λ s t. column t == column s) ss
        → session_where (λ s. has_hash s && b s) ss ≡ some r
        → r.revoked ≡ true
        → exists_row (is_unrevoked has_hash) ss ≡ false
    found_dead r [] u found gone = refl
    found_dead r (s ∷ ss) u found gone = elim (Bool-cases (has_hash s)) [
      | inl hit ↦
          ground (arith, others_dead s ss hit u.0, others_differ s ss hit u.0, found_known r ss)
      | inr miss ↦ ground (arith, found_dead r ss u.1)
    ]

    -- What a query finds of a spent token is revoked.
    found_revoked :
        (r : Session) (ss : List Session)
        → exists_row (is_unrevoked has_hash) ss ≡ false
        → session_where (λ s. has_hash s && b s) ss ≡ some r
        → r.revoked ≡ true
    found_revoked r [] dead found = cc
    found_revoked r (s ∷ ss) dead found = elim (Bool-cases (has_hash s && b s)) [
      | inl hit ↦ ground arith
      | inr miss ↦ ground (arith, found_revoked r ss)
    ]

pub found-Spent-refresh :
    (h : Digest) (r : Session) (d : Db)
    → IsValid d.sessions
    → session_by_refresh h d ≡ some r
    → r.revoked ≡ true
    → Spent (of_refresh h) d.sessions
found-Spent-refresh h r d v found gone = (
  found_known (λ s. s.refresh_token_hash) h (has_active_user d) r d.sessions found,
  found_dead (λ s. s.refresh_token_hash) h (has_active_user d) r d.sessions v.unique_refresh found
      gone,
)

found-Spent-access :
    (h : Digest) (r : Session) (d : Db)
    → IsValid d.sessions
    → session_by_access h d ≡ some r
    → r.revoked ≡ true
    → Spent (of_access h) d.sessions
found-Spent-access h r d v found gone = (
  found_known (λ s. s.access_token_hash) h (has_active_user d) r d.sessions found,
  found_dead (λ s. s.access_token_hash) h (has_active_user d) r d.sessions v.unique_access found
      gone,
)

-- A sign-out that reaches the session of an access token spends the token.
pub sign_out-Spent :
    (p : Session → Bool) (h : Digest) (s : Session) (e : Env) (w : World)
    → IsValid w.db.sessions
    → session_by_access h w.db ≡ some s
    → p s ≡ true
    → (sign_out p e w).0 ≡ ok tt
    → Spent (of_access h) (sign_out p e w).1.db.sessions
sign_out-Spent p h s e w v found hit done = elim (Bool-cases (e.fails w.step)) [
  | inl down ↦ ground arith
  | inr up ↦
      let t = e.clock w.step in
      let d = record w.db { sessions = revoked_rows p t w.db.sessions } in
      let after : (sign_out p e w).1.db ≡ d = ground arith in
      let r = if is_unrevoked p s then revoke_at t s else s in
      let now =
        session_where-revoked (λ x. x.access_token_hash == h && has_active_user w.db x) p t
          w.db.sessions (λ x. refl) s found in
      subst (λ x. Spent (of_access h) x.sessions) (sym after)
        (found-Spent-access h r d (revoke-IsValid p t w.db.sessions v) now (ground arith))
]

-- The session that any query finds is the one of its refresh hash.
is_known :
    (q : Session → Bool) (s : Session) (ss : List Session)
    → session_where q ss ≡ some s
    → exists_row (λ x. x.refresh_token_hash == s.refresh_token_hash) ss ≡ true
is_known q s [] found = cc
is_known q s (x ∷ ss) found = ground (arith, is_known q s ss)

by_refresh_hash :
    (q : Session → Bool) (s : Session) (ss : List Session)
    → Unique same_refresh ss
    → session_where q ss ≡ some s
    → session_where (λ x. x.refresh_token_hash == s.refresh_token_hash && true) ss ≡ some s
by_refresh_hash q s [] u found = cc
by_refresh_hash q s (x ∷ ss) u found = elim (Bool-cases (q x)) [
  | inl hit ↦ ground arith
  | inr miss ↦ ground (
    arith,
    by_refresh_hash q s ss u.1,
    is_known q s ss,
    others_differ (λ y. y.refresh_token_hash) s.refresh_token_hash x ss,
  )
]

-- It spends the refresh token of the session too.
pub sign_out-Spent_refresh :
    (p : Session → Bool) (h : Digest) (s : Session) (e : Env) (w : World)
    → IsValid w.db.sessions
    → session_by_access h w.db ≡ some s
    → p s ≡ true
    → (sign_out p e w).0 ≡ ok tt
    → Spent (of_refresh s.refresh_token_hash) (sign_out p e w).1.db.sessions
sign_out-Spent_refresh p h s e w v found hit done = elim (Bool-cases (e.fails w.step)) [
  | inl down ↦ ground arith
  | inr up ↦
      let t = e.clock w.step in
      let ss = revoked_rows p t w.db.sessions in
      let after : (sign_out p e w).1.db ≡ record w.db { sessions = ss } = ground arith in
      let r = if is_unrevoked p s then revoke_at t s else s in
      let q : Session → Bool = λ x. x.access_token_hash == h && has_active_user w.db x in
      let now =
        session_where-revoked (λ x. x.refresh_token_hash == s.refresh_token_hash && true) p t
          w.db.sessions (λ x. refl) s (by_refresh_hash q s w.db.sessions v.unique_refresh found) in
      subst (λ x. Spent (of_refresh s.refresh_token_hash) x.sessions) (sym after)
        (
          found_known (λ x. x.refresh_token_hash) s.refresh_token_hash (λ _. true) r ss now,
          found_dead (λ x. x.refresh_token_hash) s.refresh_token_hash (λ _. true) r ss
              (revoke-IsValid p t w.db.sessions v).unique_refresh now (ground arith),
        )
]

-- A spent access token is refused.
pub lookup-refuses :
    (h : Digest) (d : Db)
    → Spent (of_access h) d.sessions
    → (e : Env) (n : ℕ) (s : Session)
    → (get_active_session_by_access_token_hash h e (record { db = d; step = n })).0 ≢ ok s
lookup-refuses h d spent e n s done =
    let q = looked_up h s e (record { db = d; step = n }) done in
    let gone =
      found_revoked (λ x. x.access_token_hash) h (has_active_user d) s d.sessions spent.1 q.0 in
    cc

module _ (sha256 : String → Digest) (ttl : TokenTtl) where
  refresh_tx-refuses :
      (input : RefreshInput) (tokens : TokenPair) (e : Env) (w : World)
      → Spent (of_refresh (sha256 input.refresh_token)) w.db.sessions
      → (refresh_tx sha256 ttl input e w).0 ≢ ok tokens
  unfolding refresh_tx get_session_for_refresh
  refresh_tx-refuses input tokens e w spent done =
      elim (Option-cases (session_by_refresh (sha256 input.refresh_token) w.db)) [
        | inl missing ↦ ground arith
        | inr (s, found) ↦
            let gone : s.revoked ≡ true =
              found_revoked (λ x. x.refresh_token_hash) (sha256 input.refresh_token)
                (has_active_user w.db) s w.db.sessions spent.1 found in
            ground arith
      ]

  -- A spent refresh token gets no tokens.
  pub refresh-refuses :
      (pg : Driver) (input : RefreshInput) (tokens : TokenPair) (e : Env) (w : World)
      → Spent (of_refresh (sha256 input.refresh_token)) w.db.sessions
      → (refresh sha256 ttl pg input e w).0 ≢ ok tokens
  unfolding refresh
  refresh-refuses pg input tokens e w spent done =
      go (pg.begin_func (refresh_tx sha256 ttl input) e w) never done
    where
      never : (a : TokenPair) → (pg.begin_func (refresh_tx sha256 ttl input) e w).0 ≢ ok a
      never a h =
          (Ensures-begin_func {P = λ d. Spent (of_refresh (sha256 input.refresh_token)) d.sessions}
              {Q = λ _ _. ⊥} pg
              (record { at = λ e w a p h. refresh_tx-refuses input a e w p h })).at
            e w a spent h

      go :
          (r : Result TokenPair × World)
          → ((a : TokenPair) → r.0 ≢ ok a)
          → (after_rotation sha256 ttl input r.0 e r.1).0 ≢ ok tokens
      go (ok a, w') none_ok h = none_ok a refl
      go (err x, w') none_ok h = not_ok sha256 ttl input tokens x e w' h
