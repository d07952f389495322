-- ===== src/Auth/System.antt =====
-- Sign-ins, rotations and sign-outs, one after another: the session table stays sound.
use multi_tenant_authorizati.Base.{ℕ, ◌≡◌, refl, String, List, subst, arith}
use multi_tenant_authorizati.Apperrors.{refresh_replay, Result, ok, err}
use multi_tenant_authorizati.Db.Schema.{Uuid, Digest, Session, Db}
use multi_tenant_authorizati.Db.Go.{Go, Env, World, ◌>>=◌, pure, try}
use multi_tenant_authorizati.Db.Driver.{Driver, Transacted-keeps}
use multi_tenant_authorizati.Db.Keeps.{Keeps, keeps_rules}
use multi_tenant_authorizati.Auth.Families.{
  Sound, DrawsFresh, log_best_effort-Sound, login-Sound, register-Sound,
}
use multi_tenant_authorizati.Auth.Repository.{
  in_family, has_id, is_of_user, revoke_family, revoke_session, revoke_all_sessions_for_user,
}
use multi_tenant_authorizati.Auth.Service.{
  Passwords, TokenTtl, TokenPair, RegisterInput, LoginInput, register, login, RefreshInput,
  refresh_tx, refresh, revoke_replayed, after_rotation, logout, logout_all,
}
use multi_tenant_authorizati.Auth.Sessions.{IsValid, revoke-IsValid}
use multi_tenant_authorizati.Auth.Rotation.{refresh_tx-Ensures}

revoke_family-Sound : (family : Uuid) → Keeps Sound (revoke_family family)
unfolding revoke_family
revoke_family-Sound family = record {
  at = λ e w v. ground (arith, revoke-IsValid (in_family family) (e.clock w.step) w.db.sessions v);
}

logout-Sound : (session : Uuid) → Keeps Sound (logout session)
unfolding logout revoke_session
logout-Sound session = record {
  at = λ e w v. ground (arith, revoke-IsValid (has_id session) (e.clock w.step) w.db.sessions v);
}

logout_all-Sound : (user : Uuid) → Keeps Sound (logout_all user)
unfolding logout_all revoke_all_sessions_for_user
logout_all-Sound user = record {
  at = λ e w v. ground (arith, revoke-IsValid (is_of_user user) (e.clock w.step) w.db.sessions v);
}

pub Keeps-try : {A : Type 0} {P : Db → Type 0} (m : Go A) → Keeps P m → Keeps P (try m)
Keeps-try m k = record { at = λ e w h. k.at e w h }

ruleset sound_rules = (keeps_rules, revoke_family-Sound, log_best_effort-Sound, Keeps-try)

discard :
    {A : Type 0} (m : Go A) (e : Env) (w : World) → (m e w).1.db ≡ ((do _ ← m; pure tt) e w).1.db
discard {A} m e w = go (m e w)
  where
    go :
        (r : Result A × World)
        → r.1.db
          ≡ (elim r.0 as (λ _. Result (Unit {0}) × World) [
            | ok a ↦ (ok tt, r.1)
            | err x ↦ (err x, r.1)
          ]).1.db
    go (ok a, w) = refl
    go (err x, w) = refl

-- The calls that change sessions.
pub data Call : Type 0 where
  sign_up : RegisterInput → Call
  sign_in : LoginInput → Call
  rotate : RefreshInput → Call
  sign_out : Uuid → Call
  sign_out_everywhere : Uuid → Call

-- A call that opens a family draws an identifier that no live session has for its family.
abbrev pub OpensFresh : Call → Env → List Session → Type 0
OpensFresh (sign_up _) e ss = DrawsFresh e ss
OpensFresh (sign_in _) e ss = DrawsFresh e ss
OpensFresh (rotate _) e ss = Unit
OpensFresh (sign_out _) e ss = Unit
OpensFresh (sign_out_everywhere _) e ss = Unit

module _ (sha256 : String → Digest) (ttl : TokenTtl) where
  after_rotation-Sound :
      (input : RefreshInput) (r : Result TokenPair)
      → Keeps Sound (after_rotation sha256 ttl input r)
  unfolding revoke_replayed
  after_rotation-Sound input (ok tokens) = search sound_rules
  after_rotation-Sound input (err (refresh_replay session user family)) = search sound_rules depth 9
  after_rotation-Sound input (err x) = search sound_rules

  rotation-Sound :
      (pg : Driver) (input : RefreshInput)
      → Keeps Sound (pg.begin_func (refresh_tx sha256 ttl input))
  rotation-Sound pg input = record {
    at = λ e w v.
        Transacted-keeps (λ d. Sound d) (refresh_tx sha256 ttl input) e w v
          (λ k tokens done.
            ((refresh_tx-Ensures sha256 ttl w.db input).at e (record { db = w.db; step = k }) tokens
              (refl, v) done).3.0)
          (pg.transacts (refresh_tx sha256 ttl input) e w);
  }

  rotate-Sound : (pg : Driver) (input : RefreshInput) → Keeps Sound (refresh sha256 ttl pg input)
  unfolding refresh
  rotate-Sound pg input = search (sound_rules, rotation-Sound, after_rotation-Sound) depth 9

  module _ (passwords : Passwords) (pg : Driver) where
    unfoldable pub perform : Call → Go Unit
    perform (sign_up input) = do _ ← register sha256 ttl passwords pg input; pure tt
    perform (sign_in input) = do _ ← login sha256 ttl passwords input; pure tt
    perform (rotate input) = do _ ← refresh sha256 ttl pg input; pure tt
    perform (sign_out session) = logout session
    perform (sign_out_everywhere user) = logout_all user

    -- The databases that calls lead to.
    pub data Reaches (d : Db) : Db → Type 0 where
      here : Reaches d d
      step :
          (d' : Db) (c : Call) (e : Env) (n : ℕ)
          → OpensFresh c e d'.sessions
          → Reaches d d'
          → Reaches d (perform c e (record { db = d'; step = n })).1.db

    perform-Sound :
        (c : Call) (e : Env) (w : World)
        → OpensFresh c e w.db.sessions
        → Sound w.db
        → Sound (perform c e w).1.db
    unfolding perform
    perform-Sound (sign_up input) e w fresh v =
        subst Sound (discard (register sha256 ttl passwords pg input) e w)
          (register-Sound sha256 ttl passwords pg input e w v fresh)
    perform-Sound (sign_in input) e w fresh v =
        subst Sound (discard (login sha256 ttl passwords input) e w)
          (login-Sound sha256 ttl passwords input e w v fresh)
    perform-Sound (rotate input) e w fresh v =
        subst Sound (discard (refresh sha256 ttl pg input) e w) ((rotate-Sound pg input).at e w v)
    perform-Sound (sign_out session) e w fresh v = (logout-Sound session).at e w v
    perform-Sound (sign_out_everywhere user) e w fresh v = (logout_all-Sound user).at e w v

    -- Whatever registrations, sign-ins, rotations and sign-outs are made, in whatever order and
    -- whichever of them fail, a sound session table stays sound, if no registration or sign-in
    -- draws a family identifier of a live session: the two hashes are unique, and each token family
    -- has one live session at most.
    pub reaches-Sound : (d d' : Db) → IsValid d.sessions → Reaches d d' → IsValid d'.sessions
    reaches-Sound d _ v here = v
    reaches-Sound d _ v (step d' c e n fresh r) =
        perform-Sound c e (record { db = d'; step = n }) fresh (reaches-Sound d d' v r)
