-- ===== src/Auth/Service.antt =====
-- internal/auth/service.go, and the opaque tokens of internal/auth/tokens.go.
use multi_tenant_authorizati.Base.{
  ◌+◌, String, Bool, true, ◌&&◌, not, Option, none, some, List, [], ◌∷◌, str_eq, ltb,
}
use Prim.Native.String.{◌++◌ as append}
use multi_tenant_authorizati.Apperrors.{
  Error, user_identifier_invalid, internal_server, user_not_found, invalid_credentials,
  user_suspended, invalid_token, refresh_replay, Result, ok, err,
}
use multi_tenant_authorizati.Db.Schema.{
  Uuid, Time, Digest, User, Session, OrganizationType, personal, user_active,
}
use multi_tenant_authorizati.Base64.{Bytes}
use multi_tenant_authorizati.Scan.{Runes}
use multi_tenant_authorizati.Db.Go.{
  Go, pure, raise, raise_if, ◌>>=◌, ◌>>◌, try, now, random_text, random_salt, from_option,
}
use multi_tenant_authorizati.Db.Driver.{Driver}
use multi_tenant_authorizati.Membership.Repository.{coalesce}
use multi_tenant_authorizati.Organization.Repository.{bootstrap}
use multi_tenant_authorizati.Audit.{log_best_effort}
use multi_tenant_authorizati.Auth.Repository.{
  create_user, get_user_by_identifier, NewSession, create_session, create_session_in_family,
  get_session_for_refresh, revoke_session, revoke_session_if_active, revoke_family,
  revoke_all_sessions_for_user, SessionSummary, list_active_sessions,
}

-- What the service uses of password.go: the hash under a salt and the verification (none is an
-- error), and the hash that stands in for a user who is missing.
pub record Passwords : Type 0 where
  pub hash : Bytes → String → Option Runes
  pub verify : Runes → String → Option Bool
  pub dummy_hash : Runes

-- config.Config, as far as the service reads it.
pub record TokenTtl : Type 0 where
  pub access : Time
  pub refresh : Time

pub record RegisterInput : Type 0 where
  pub email : String
  pub phone : String
  pub password : String
  pub first_name : String
  pub last_name : String
  pub user_agent : String
  pub ip_address : String

pub record UserInfo : Type 0 where
  pub id : Uuid
  pub email : String
  pub phone : String
  pub first_name : String
  pub last_name : String

pub record OrganizationInfo : Type 0 where
  pub id : Uuid
  pub name : String
  pub org_type : OrganizationType

-- The four values that every successful sign-in returns.
pub record TokenPair : Type 0 where
  pub access_token : String
  pub access_token_expires_at : Time
  pub refresh_token : String
  pub refresh_token_expires_at : Time

pub record RegisterResult : Type 0 where
  pub tokens : TokenPair
  pub user : UserInfo
  pub organization : OrganizationInfo

pub record LoginInput : Type 0 where
  pub identifier : String
  pub password : String
  pub user_agent : String
  pub ip_address : String

pub record LoginResult : Type 0 where
  pub tokens : TokenPair
  pub user : UserInfo

pub record RefreshInput : Type 0 where
  pub refresh_token : String
  pub user_agent : String
  pub ip_address : String

module _ (sha256 : String → Digest) (ttl : TokenTtl) where
  -- The raw token; what is stored is its hash. Any failure is ErrInternalServer to the callers.
  unfoldable pub generate_opaque_token : Go String
  generate_opaque_token = random_text internal_server

  -- Two tokens, then `time.Now()` and the two expiry times.
  unfoldable pub new_tokens : Go TokenPair
  unfolding generate_opaque_token
  new_tokens = do
    raw_access ← generate_opaque_token
    raw_refresh ← generate_opaque_token
    t ← now
    pure (record {
      access_token = raw_access;
      access_token_expires_at = t + ttl.access;
      refresh_token = raw_refresh;
      refresh_token_expires_at = t + ttl.refresh;
    })

  -- The row that stores a pair.
  abbrev pub session_of : Uuid → TokenPair → String → String → NewSession
  session_of user tokens user_agent ip_address = record {
    user_id = user;
    refresh_token_hash = sha256 tokens.refresh_token;
    access_token_hash = sha256 tokens.access_token;
    user_agent = user_agent;
    ip_address = ip_address;
    access_token_expires_at = tokens.access_token_expires_at;
    refresh_token_expires_at = tokens.refresh_token_expires_at;
  }

  abbrev pub workspace_name : String → String
  workspace_name first_name = append first_name "'s Workspace"

  -- User, personal organization, membership and session are one unit.
  unfoldable pub register_tx : RegisterInput → Runes → Go (Uuid × Uuid × TokenPair)
  register_tx input password_hash = do
    user ← create_user (record {
      email = input.email;
      phone = input.phone;
      password_hash = password_hash;
      first_name = input.first_name;
      last_name = input.last_name;
    })
    org ← bootstrap (workspace_name input.first_name) personal user
    tokens ← new_tokens
    _ ← create_session (session_of user tokens input.user_agent input.ip_address)
    pure (user, org, tokens)

  unfoldable pub register : Passwords → Driver → RegisterInput → Go RegisterResult
  register passwords pg input = do
    raise_if (str_eq input.email "" && str_eq input.phone "") user_identifier_invalid
    salt ← random_salt internal_server
    password_hash ← from_option internal_server (passwords.hash salt input.password)
    (user, org, tokens) ← pg.begin_func (register_tx input password_hash)
    log_best_effort (record {
      organization_id = some org;
      user_id = some user;
      action = "user.registered";
      entity_type = "user";
      entity_id = some user;
      metadata = [];
      ip_address = input.ip_address;
      user_agent = input.user_agent;
    })
    pure (record {
      tokens = tokens;
      user = record {
        id = user;
        email = input.email;
        phone = "";
        first_name = input.first_name;
        last_name = input.last_name;
      };
      organization = record {
        id = org;
        name = workspace_name input.first_name;
        org_type = personal;
      };
    })

  -- ErrUserNotFound is held back, so that a missing user costs a verification too.
  abbrev found_user : Result User → Go (Option User)
  found_user (ok u) = pure (some u)
  found_user (err user_not_found) = pure none
  found_user (err x) = raise x

  abbrev pub stored_hash : Passwords → Option User → Runes
  stored_hash passwords none = passwords.dummy_hash
  stored_hash passwords (some u) = u.password_hash

  abbrev pub verified : Option Bool → Go Bool
  verified none = raise internal_server
  verified (some b) = pure b

  abbrev or_invalid_credentials : Option User → Bool → Go User
  or_invalid_credentials (some u) true = pure u
  or_invalid_credentials _ _ = raise invalid_credentials

  -- The checks of Login, before it issues tokens.
  unfoldable pub authenticate : Passwords → String → String → Go User
  authenticate passwords identifier password = do
    lookup ← try (get_user_by_identifier identifier)
    found ← found_user lookup
    valid ← verified (passwords.verify (stored_hash passwords found) password)
    user ← or_invalid_credentials found valid
    raise_if (not (user_active user.status)) user_suspended
    pure user

  unfoldable pub login : Passwords → LoginInput → Go LoginResult
  login passwords input = do
    user ← authenticate passwords input.identifier input.password
    tokens ← new_tokens
    _ ← create_session (session_of user.id tokens input.user_agent input.ip_address)
    log_best_effort (record {
      organization_id = none;
      user_id = some user.id;
      action = "user.logged_in";
      entity_type = "user";
      entity_id = some user.id;
      metadata = [];
      ip_address = input.ip_address;
      user_agent = input.user_agent;
    })
    pure (record {
      tokens = tokens;
      user = record {
        id = user.id;
        email = coalesce user.email;
        phone = coalesce user.phone;
        first_name = user.first_name;
        last_name = coalesce user.last_name;
      };
    })

  -- The session that `replayed` holds goes with the error.
  abbrev pub replay_of : Session → Error
  replay_of s = refresh_replay s.id s.user_id s.token_family_id

  -- The row lock and the conditional revoke make the rotation a compare-and-swap.
  unfoldable pub refresh_tx : RefreshInput → Go TokenPair
  refresh_tx input = do
    session ← get_session_for_refresh (sha256 input.refresh_token)
    raise_if session.revoked (replay_of session)
    t ← now
    raise_if (ltb session.refresh_token_expires_at t) invalid_token
    tokens ← new_tokens
    revoked ← revoke_session_if_active session.id
    raise_if (not revoked) (replay_of session)
    _ ←
        create_session_in_family session.token_family_id
          (session_of session.user_id tokens input.user_agent input.ip_address)
    pure tokens

  -- Reuse is theft: the whole family goes. Failures are logged only.
  unfoldable pub revoke_replayed : Uuid → Uuid → Uuid → RefreshInput → Go Unit
  revoke_replayed session user family input = do
    _ ← try (revoke_family family)
    log_best_effort (record {
      organization_id = none;
      user_id = some user;
      action = "token.replay_detected";
      entity_type = "session";
      entity_id = some session;
      metadata = ("token_family_id", family) ∷ [];
      ip_address = input.ip_address;
      user_agent = input.user_agent;
    })

  abbrev pub after_rotation : RefreshInput → Result TokenPair → Go TokenPair
  after_rotation input (ok tokens) = pure tokens
  after_rotation input (err (refresh_replay session user family)) =
      revoke_replayed session user family input >> raise invalid_token
  after_rotation input (err x) = raise x

  unfoldable pub refresh : Driver → RefreshInput → Go TokenPair
  unfolding revoke_replayed
  refresh pg input = do
    outcome ← try (pg.begin_func (refresh_tx input))
    after_rotation input outcome

unfoldable pub logout : Uuid → Go Unit
logout session = revoke_session session

unfoldable pub logout_all : Uuid → Go Unit
logout_all user = revoke_all_sessions_for_user user

unfoldable pub list_sessions : Uuid → Go (List SessionSummary)
list_sessions user = list_active_sessions user
