-- ===== src/Auth/Replay.antt =====
-- Refresh with a token that was already used.
use multi_tenant_authorizati.Base.{
  ℕ, ◌≡◌, refl, subst, ◌⊎◌, inl, inr, true, false, none, some, [], ◌∷◌, arith, String,
}
use multi_tenant_authorizati.Apperrors.{Result, ok, err, invalid_token, external}
use multi_tenant_authorizati.Db.Rows.{exists_row}
use multi_tenant_authorizati.Db.Schema.{Uuid, Digest, Session, Db}
use multi_tenant_authorizati.Db.Go.{Env, World}
use multi_tenant_authorizati.Db.Driver.{
  Driver, Transacted, aborted, rolled_back, committed, unacknowledged,
}
use multi_tenant_authorizati.Auth.Repository.{
  is_unrevoked, in_family, session_by_refresh, get_session_for_refresh, revoke_family,
}
use multi_tenant_authorizati.Audit.{LogEntry, log, log_best_effort}
use multi_tenant_authorizati.Auth.Service.{
  TokenTtl, TokenPair, RefreshInput, refresh_tx, refresh, revoke_replayed, after_rotation,
  replay_of,
}
use multi_tenant_authorizati.Auth.Rotation.{refresh-Rotates}
use multi_tenant_authorizati.Auth.Sessions.{IsValid, revoke-none_live}

-- No session of the family is live.
abbrev FamilyOver : Uuid → Db → Type 0
FamilyOver family d = exists_row (is_unrevoked (in_family family)) d.sessions ≡ false

log_best_effort-FamilyOver :
    (l : LogEntry) (family : Uuid) (e : Env) (w : World)
    → FamilyOver family w.db
    → FamilyOver family (log_best_effort l e w).1.db
unfolding log_best_effort log
log_best_effort-FamilyOver l family e w h = ground arith

revoke_family-FamilyOver :
    (family : Uuid) (e : Env) (w : World)
    → e.fails w.step ≡ false
    → FamilyOver family (revoke_family family e w).1.db
unfolding revoke_family
revoke_family-FamilyOver family e w up =
    ground (arith, revoke-none_live (in_family family) (e.clock w.step) w.db.sessions)

-- The entry of the log.
abbrev replay_entry : Session → RefreshInput → LogEntry
replay_entry s input = record {
  organization_id = none;
  user_id = some s.user_id;
  action = "token.replay_detected";
  entity_type = "session";
  entity_id = some s.id;
  metadata = ("token_family_id", s.token_family_id) ∷ [];
  ip_address = input.ip_address;
  user_agent = input.user_agent;
}

module _ (sha256 : String → Digest) (ttl : TokenTtl) where
  -- The transaction ends at the read of a revoked session, and names it.
  refresh_tx-replay :
      (input : RefreshInput) (s : Session) (e : Env) (w : World)
      → session_by_refresh (sha256 input.refresh_token) w.db ≡ some s
      → s.revoked ≡ true
      → e.fails w.step ≡ false
      → (refresh_tx sha256 ttl input e w).0 ≡ err (replay_of sha256 ttl s)
  unfolding refresh_tx get_session_for_refresh
  refresh_tx-replay input s e w found used up = ground arith

  after_rotation-replay :
      (input : RefreshInput) (s : Session) (e : Env) (w : World)
      → e.fails w.step ≡ false
      → ((after_rotation sha256 ttl input (err (replay_of sha256 ttl s)) e w).0 ≡ err invalid_token)
        × FamilyOver s.token_family_id
            (after_rotation sha256 ttl input (err (replay_of sha256 ttl s)) e w).1.db
  unfolding revoke_replayed log_best_effort
  after_rotation-replay input s e w up = (
    refl,
    log_best_effort-FamilyOver (replay_entry s input) s.token_family_id e
        (revoke_family s.token_family_id e w).1 (revoke_family-FamilyOver s.token_family_id e w up),
  )

  -- What a replay comes to: the transaction could not begin, or the call fails with
  -- ErrInvalidToken and the family is over.
  abbrev pub Answered : Session → Db → Result TokenPair × World → Type 0
  Answered s d₀ r =
      ((r.0 ≡ err external) × (r.1.db ≡ d₀))
      ⊎ ((r.0 ≡ err invalid_token) × FamilyOver s.token_family_id r.1.db)

  -- A refresh token whose session is revoked is a replay: while the database answers, Refresh
  -- returns no tokens, and it revokes every session of the family. If the transaction itself fails,
  -- the call returns that error and changes nothing.
  pub refresh-replay :
      (pg : Driver) (input : RefreshInput) (s : Session) (e : Env) (w : World)
      → session_by_refresh (sha256 input.refresh_token) w.db ≡ some s
      → s.revoked ≡ true
      → ((n : ℕ) → e.fails n ≡ false)
      → Answered s w.db (refresh sha256 ttl pg input e w)
  unfolding refresh
  refresh-replay pg input s e w found used up =
      go (pg.begin_func (refresh_tx sha256 ttl input) e w)
        (pg.transacts (refresh_tx sha256 ttl input) e w)
    where
      go :
          (r : Result TokenPair × World)
          → Transacted (refresh_tx sha256 ttl input) e w r
          → Answered s w.db (after_rotation sha256 ttl input r.0 e r.1)
      go r (aborted n p) = rw p (inl (refl, refl))
      go r (rolled_back k n x failed p) =
          let known : replay_of sha256 ttl s ≡ x =
            cc (refresh_tx-replay input s e (record { db = w.db; step = k }) found used (up k)) in
          rw p (
            subst
              (λ y.
                Answered s w.db
                  (after_rotation sha256 ttl input (err y) e (record { db = w.db; step = n })))
              known (inr (after_rotation-replay input s e (record { db = w.db; step = n }) (up n))))
      go r (committed k n a done p) =
          absurd
            (cc (refresh_tx-replay input s e (record { db = w.db; step = k }) found used (up k)))
      go r (unacknowledged k n a done p) =
          absurd
            (cc (refresh_tx-replay input s e (record { db = w.db; step = k }) found used (up k)))

  -- In a sound session table, a refresh token is good for one rotation: once Refresh has returned
  -- tokens for it, a second call with the same token, made before anything else has changed,
  -- returns none and ends the family, the session of the first call included. The database is to
  -- answer the second call; if its transaction fails, nothing changes.
  refresh-once :
      (pg : Driver) (input : RefreshInput) (tokens : TokenPair) (e e' : Env) (w : World) (n : ℕ)
      → IsValid w.db.sessions
      → (refresh sha256 ttl pg input e w).0 ≡ ok tokens
      → ((k : ℕ) → e'.fails k ≡ false)
      → (s : Session) × (session_by_refresh
            (sha256 input.refresh_token)
            (refresh sha256 ttl pg input e w).1.db
          ≡ some s)
        × Answered s (refresh sha256 ttl pg input e w).1.db (
            refresh sha256 ttl pg input e'
              (record { db = (refresh sha256 ttl pg input e w).1.db; step = n }))
  refresh-once pg input tokens e e' w n v h up =
      let q = (refresh-Rotates sha256 ttl pg input tokens e w v h).3 in
      (
        q.1,
        q.2,
        refresh-replay pg input q.1 e'
            (record { db = (refresh sha256 ttl pg input e w).1.db; step = n }) q.2 q.3 up,
      )
