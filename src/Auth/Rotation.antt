-- ===== src/Auth/Rotation.antt =====
-- Refresh: a token is good for one rotation, which continues its family.
use multi_tenant_authorizati.Base.{
  ◌≡◌, refl, inl, inr, Bool, true, false, ◌&&◌, not, none, some, ◌∷◌, Bool-cases, String, arith,
  ◌==◌, ltb, ◌∙◌, sym, subst,
}
use multi_tenant_authorizati.Apperrors.{Error, refresh_replay, Result, ok, err, invalid_token}
use multi_tenant_authorizati.Db.Rows.{exists_row}
use multi_tenant_authorizati.Db.Schema.{Uuid, Time, Digest, Session, Db}
use multi_tenant_authorizati.Db.Go.{Go, Env, World, raise, ◌>>◌}
use multi_tenant_authorizati.Db.Driver.{Driver}
use multi_tenant_authorizati.Db.Ensures.{
  Ensures, Ensures-bind, Ensures-raise_if, Ensures-query_row, Ensures-weaken, Ensures-assume,
  Ensures-now, Ensures-pure, Ensures-begin_func, Ensures-frame,
}
use multi_tenant_authorizati.Auth.Repository.{
  is_unrevoked, in_family, has_id, has_active_user, session_by_refresh, NewSession,
  get_session_for_refresh, revoke_session_if_active, create_session_in_family,
}
use multi_tenant_authorizati.Auth.Service.{
  TokenTtl, TokenPair, RefreshInput, new_tokens, session_of, replay_of, refresh_tx, refresh,
  after_rotation, revoke_replayed,
}
use multi_tenant_authorizati.Auth.Sessions.{
  IsValid, revoked_rows, revoke_at, revoke-IsValid, revoke-family_over, session_where-revoked,
  session_where-passes, is_taken, taken-ne, insert-IsValid,
}

-- The table is sound, and `h` is the refresh hash of the live session `s`.
abbrev Live : Digest → Session → Db → Type 0
Live h s d = IsValid d.sessions × (session_by_refresh h d ≡ some s) × (s.revoked ≡ false)

-- The session of `h` is revoked, and its family has no live session.
abbrev Spent : Digest → Session → Db → Type 0
Spent h s d =
    IsValid d.sessions
    × (exists_row (is_unrevoked (in_family s.token_family_id)) d.sessions ≡ false)
    × (has_active_user d s ≡ true)
    × (r : Session) × (session_by_refresh h d ≡ some r)
    × (r.revoked ≡ true)

-- The session of `h` is revoked, and a live one of the same user and family has the hash `k`.
abbrev Rotated : Digest → Session → Digest → Db → Type 0
Rotated h s k d =
    IsValid d.sessions
    × (r : Session) × (session_by_refresh h d ≡ some r)
    × (r.revoked ≡ true)
    × (n : Session) × (session_by_refresh k d ≡ some n)
    × (n.revoked ≡ false)
    × (n.user_id ≡ s.user_id)
    × (n.token_family_id ≡ s.token_family_id)

abbrev hash_test : Digest → Db → Session → Bool
hash_test h d s = s.refresh_token_hash == h && has_active_user d s

revoked-Spent :
    (h : Digest) (s : Session) (t : Time) (d : Db)
    → Live h s d
    → Spent h s (record d { sessions = revoked_rows (has_id s.id) t d.sessions })
revoked-Spent h s t d (v, found, live) = (
  revoke-IsValid (has_id s.id) t d.sessions v,
  revoke-family_over (hash_test h d) s t d.sessions v.one_live found live,
  ground (arith, session_where-passes (hash_test h d) s d.sessions found),
  revoke_at t s,
  session_where-revoked (hash_test h d) (has_id s.id) t d.sessions (λ x. refl) s found
      ∙ ground arith,
  refl,
)

revoke-Spent :
    (h : Digest) (s : Session)
    → Ensures (Live h s) (revoke_session_if_active s.id) (λ _ d. Spent h s d)
unfolding revoke_session_if_active
revoke-Spent h s = record {
  at = λ e w a p ret. elim (Bool-cases (e.fails w.step)) [
    | inl down ↦ ground arith
    | inr up ↦
        let after : (revoke_session_if_active s.id e w).1.db
            ≡ record w.db { sessions = revoked_rows (has_id s.id) (e.clock w.step) w.db.sessions } =
          ground arith in
        subst (Spent h s) (sym after) (revoked-Spent h s (e.clock w.step) w.db p)
  ];
}

-- The row that CreateSessionInFamily inserts.
abbrev pub new_row : Uuid → Uuid → Time → NewSession → Session
new_row id family t new = record {
  id = id;
  user_id = new.user_id;
  token_family_id = family;
  refresh_token_hash = new.refresh_token_hash;
  access_token_hash = new.access_token_hash;
  user_agent = new.user_agent;
  ip_address = new.ip_address;
  revoked = false;
  revoked_at = none;
  access_token_expires_at = new.access_token_expires_at;
  refresh_token_expires_at = new.refresh_token_expires_at;
  created_at = t;
}

inserted-Rotated :
    (h : Digest) (s : Session) (id : Uuid) (t : Time) (new : NewSession) (d : Db)
    → new.user_id ≡ s.user_id
    → exists_row (is_taken id new.refresh_token_hash new.access_token_hash) d.sessions ≡ false
    → Spent h s d
    → Rotated h s new.refresh_token_hash
        (record d { sessions = new_row id s.token_family_id t new ∷ d.sessions })
inserted-Rotated h s id t new d same free (v, over, known, r, found, gone) = (
  insert-IsValid (new_row id s.token_family_id t new) d.sessions free over refl v,
  r,
  ground (
    arith,
    taken-ne id new.refresh_token_hash new.access_token_hash (has_active_user d) h r d.sessions free
        found,
  ),
  gone,
  new_row id s.token_family_id t new,
  ground arith,
  refl,
  same,
  refl,
)

create-Rotated :
    (h : Digest) (s : Session) (new : NewSession)
    → new.user_id ≡ s.user_id
    → Ensures
        (Spent h s)
        (create_session_in_family s.token_family_id new)
        (λ _ d. Rotated h s new.refresh_token_hash d)
unfolding create_session_in_family
create-Rotated h s new same = record {
  at = λ e w a p ret. elim (Bool-cases (e.fails w.step)) [
    | inl down ↦ ground arith
    | inr up ↦ elim (Bool-cases (exists_row (taken e w) w.db.sessions)) [
      | inl used ↦ ground arith
      | inr free ↦
          let after : (create_session_in_family s.token_family_id new e w).1.db
              ≡ record w.db { sessions = added e w ∷ w.db.sessions } =
            ground arith in
          subst (Rotated h s new.refresh_token_hash) (sym after)
            (inserted-Rotated h s (e.uuid w.step 0) (e.clock w.step) new w.db same free p)
    ]
  ];
}
  where
    taken : Env → World → Session → Bool
    taken e w = is_taken (e.uuid w.step 0) new.refresh_token_hash new.access_token_hash

    added : Env → World → Session
    added e w = new_row (e.uuid w.step 0) s.token_family_id (e.clock w.step) new

module _ (sha256 : String → Digest) (ttl : TokenTtl) where
  pub new_tokens-Ensures : {P : Db → Type 0} → Ensures P (new_tokens sha256 ttl) (λ _ d. P d)
  unfolding new_tokens
  new_tokens-Ensures = record { at = λ e w a p h. ground arith }

  get_session_for_refresh-Ensures :
      {P : Db → Type 0} (h : Digest)
      → Ensures P (get_session_for_refresh h) (λ s d. P d × (session_by_refresh h d ≡ some s))
  unfolding get_session_for_refresh
  get_session_for_refresh-Ensures h = Ensures-query_row _ _

  -- What a rotation from the database `d₀` has done.
  abbrev pub Rotates : Db → RefreshInput → TokenPair → Db → Type 0
  Rotates d₀ input tokens d =
      (s : Session) × (session_by_refresh (sha256 input.refresh_token) d₀ ≡ some s)
      × (s.revoked ≡ false)
      × Rotated (sha256 input.refresh_token) s (sha256 tokens.refresh_token) d

  abbrev At : Db → Db → Type 0
  At d₀ d = (d ≡ d₀) × IsValid d.sessions

  -- What the guards of `refresh_tx` have established about the session that it read.
  abbrev Found : Db → Digest → Session → Type 0
  Found d₀ h s = (session_by_refresh h d₀ ≡ some s) × (s.revoked ≡ false)

  passed_guards :
      (d₀ : Db) (h : Digest) (s : Session) (c : Bool) (d : Db)
      → ((At d₀ d × (session_by_refresh h d ≡ some s)) × (s.revoked ≡ false)) × (c ≡ false)
      → Found d₀ h s × Live h s d
  passed_guards d₀ h s c d q = (
    (subst (λ x. session_by_refresh h x ≡ some s) q.0.0.0.0 q.0.0.1, q.0.1),
    (q.0.0.0.1, q.0.0.1, q.0.1),
  )

  rotated :
      (d₀ : Db) (input : RefreshInput) (s : Session) (tokens a : TokenPair) (d : Db)
      → (Found d₀ (sha256 input.refresh_token) s
          × Rotated (sha256 input.refresh_token) s (sha256 tokens.refresh_token) d)
        × (a ≡ tokens)
      → Rotates d₀ input a d
  rotated d₀ input s tokens a d q =
      subst (λ x. Rotates d₀ input x d) (sym q.1) (s, q.0.0.0, q.0.0.1, q.0.1)

  pub refresh_tx-Ensures :
      (d₀ : Db) (input : RefreshInput)
      → Ensures (At d₀) (refresh_tx sha256 ttl input) (Rotates d₀ input)
  unfolding refresh_tx
  refresh_tx-Ensures d₀ input =
      Ensures-bind (get_session_for_refresh-Ensures (sha256 input.refresh_token)) λ s.
        Ensures-bind (Ensures-raise_if s.revoked (replay_of sha256 ttl s)) λ _.
          Ensures-bind Ensures-now λ t.
            Ensures-bind (Ensures-raise_if (ltb s.refresh_token_expires_at t) invalid_token) λ _.
              Ensures-bind new_tokens-Ensures λ tokens.
                Ensures-assume (passed_guards d₀ (sha256 input.refresh_token) s _) (
                  Ensures-bind (Ensures-frame (revoke-Spent (sha256 input.refresh_token) s)) λ done.
                    Ensures-bind (Ensures-raise_if (not done) (replay_of sha256 ttl s)) λ _.
                      Ensures-assume (λ d q. q.0)
                        (Ensures-bind
                          (Ensures-frame (
                            create-Rotated (sha256 input.refresh_token) s
                              (session_of sha256 ttl s.user_id tokens input.user_agent
                                input.ip_address)
                              refl))
                          λ _.
                            Ensures-weaken (λ a d q. rotated d₀ input s tokens a d q)
                              (Ensures-pure tokens)))

  raise_last :
      (m : Go Unit) (x : Error) (a : TokenPair) (e : Env) (w : World)
      → ¬ (((m >> raise x) e w).0 ≡ ok a)
  raise_last m x a e w h = go (m e w) h
    where
      go :
          (r : Result Unit × World)
          → ¬ (
              (elim r.0 as (λ _. Result TokenPair × World) [
                | ok _ ↦ (err x, r.1)
                | err y ↦ (err y, r.1)
              ]).0
              ≡ ok a)
      go (ok u, w) h = cc
      go (err y, w) h = cc

  pub not_ok :
      (input : RefreshInput) (tokens : TokenPair) (x : Error) (e : Env) (w : World)
      → ¬ ((after_rotation sha256 ttl input (err x) e w).0 ≡ ok tokens)
  not_ok input tokens (refresh_replay session user family) e w h =
      raise_last (revoke_replayed sha256 ttl session user family input) _ tokens e w h
  not_ok input tokens x e w h = cc

  -- In a sound session table, a call of Refresh that returns tokens has rotated the session of the
  -- token that it was given: that session was live and is now revoked, and the family has a new
  -- live session of the same user, whose refresh token is the one returned.
  pub refresh-Rotates :
      (pg : Driver) (input : RefreshInput) (tokens : TokenPair) (e : Env) (w : World)
      → IsValid w.db.sessions
      → (refresh sha256 ttl pg input e w).0 ≡ ok tokens
      → Rotates w.db input tokens (refresh sha256 ttl pg input e w).1.db
  unfolding refresh
  refresh-Rotates pg input tokens e w v h =
      go (pg.begin_func (refresh_tx sha256 ttl input) e w)
        (λ a q. (Ensures-begin_func pg (refresh_tx-Ensures w.db input)).at e w a (refl, v) q) h
    where
      go :
          (r : Result TokenPair × World)
          → ((a : TokenPair) → r.0 ≡ ok a → Rotates w.db input a r.1.db)
          → (after_rotation sha256 ttl input r.0 e r.1).0 ≡ ok tokens
          → Rotates w.db input tokens (after_rotation sha256 ttl input r.0 e r.1).1.db
      go (ok a, w') k h =
          subst (λ x. Rotates w.db input x w'.db) {x = a} {y = tokens} (ground arith) (k a refl)
      go (err x, w') k h = absurd (not_ok input tokens x e w' h)
