-- ===== src/Tests/AuthRuns.antt =====
-- Sessions, sign-in and registration, at the small database.
use multi_tenant_authorizati.Base.{
  [], ◌∷◌, ◌⊎◌, ◌≡◌, refl, str_eq, Bool, true, false, some, inl, none,
}
use multi_tenant_authorizati.Apperrors.{ok, err, invalid_credentials}
use multi_tenant_authorizati.Db.Schema.{User, UserStatus, OrganizationType}
use multi_tenant_authorizati.Db.Atomic.{Atomic}
use multi_tenant_authorizati.Membership.Guards.{IsOwner}
use multi_tenant_authorizati.Auth.Repository.{
  get_active_session_by_access_token_hash, get_session_for_refresh, revoke_session_if_active,
  create_session_in_family, get_user_by_identifier, create_user, create_session, revoke_session,
  revoke_all_sessions_for_user,
}
use multi_tenant_authorizati.Auth.Service.{
  Passwords, TokenTtl, TokenPair, RefreshInput, RegisterInput, LoginInput, LoginResult, login,
  RegisterResult, generate_opaque_token, new_tokens, refresh_tx, refresh, authenticate, register,
  register_tx, logout, logout_all,
}
use multi_tenant_authorizati.Text.{contains_at}
use multi_tenant_authorizati.Audit.{log_best_effort}
use multi_tenant_authorizati.Organization.Repository.{
  bootstrap, create, get_role_id_by_kind, add_owner_membership,
}
use multi_tenant_authorizati.Db.Provision.{
  provision_default_roles, clone_roles, template_grants, add_grants, grants_of, grants_to,
}
use multi_tenant_authorizati.Auth.Sessions.{IsValid}
use multi_tenant_authorizati.Auth.Rotation.{Rotates, refresh-Rotates}
use multi_tenant_authorizati.Auth.Replay.{Answered, refresh-replay}
use multi_tenant_authorizati.Auth.Credentials.{Admits, authenticate-Admits, authenticate-uniform}
use multi_tenant_authorizati.Auth.Registration.{Remains, register-IsOwner, register-Atomic}
use multi_tenant_authorizati.Normalize.{Phonebook}
use multi_tenant_authorizati.Http.{Request, background}
use multi_tenant_authorizati.Http.Response.{error}
use multi_tenant_authorizati.Auth.Handler.{handle_refresh}
use multi_tenant_authorizati.Auth.Csrf.{DoubleSubmits, handle_refresh-guards}
use multi_tenant_authorizati.Auth.SignUp.{Opened, register-SignedIn}
use multi_tenant_authorizati.Auth.SignIn.{SignedIn, login-SignedIn}
use multi_tenant_authorizati.Tests.Fixtures.{
  quiet, digest, plain, database, world, rotated_world, session, user,
}

abbrev pub ttl : TokenTtl
ttl = record { access = 500; refresh = 1500 }

abbrev pub passwords : Passwords
passwords = record {
  hash = λ salt p. some salt;
  verify = λ stored p. some (str_eq p "correct");
  dummy_hash = [];
}

pub sessions-IsValid : (revoked : Bool) → IsValid (database revoked).sessions
sessions-IsValid revoked = record {
  unique_refresh = (refl, tt);
  unique_access = (refl, tt);
  one_live = (refl, tt);
}

abbrev pub input : RefreshInput
input = record { refresh_token = "refresh"; user_agent = ""; ip_address = "" }

abbrev pub tokens : TokenPair
tokens = record {
  access_token = "fresh";
  access_token_expires_at = 1500;
  refresh_token = "fresh";
  refresh_token_expires_at = 2500;
}

pub refreshed : (refresh digest ttl plain input quiet world).0 ≡ ok tokens
unfolding refresh refresh_tx get_session_for_refresh new_tokens generate_opaque_token
    revoke_session_if_active create_session_in_family
refreshed = refl

refresh-Rotates_example :
    Rotates digest ttl
      (database false)
      input
      tokens
      (refresh digest ttl plain input quiet world).1.db
refresh-Rotates_example =
    refresh-Rotates digest ttl plain input tokens quiet world (sessions-IsValid false) refreshed

refresh-replay_example :
    Answered digest ttl
      (session true)
      (database true)
      (refresh digest ttl plain input quiet rotated_world)
refresh-replay_example =
    refresh-replay digest ttl plain input (session true) quiet rotated_world refl refl (λ n. refl)

pub looked_up : (get_active_session_by_access_token_hash 1 quiet world).0 ≡ ok (session false)
unfolding get_active_session_by_access_token_hash
looked_up = refl

pub signed_out : (logout 70 quiet world).0 ≡ ok tt
unfolding logout revoke_session
signed_out = refl

pub signed_out_all : (logout_all 10 quiet world).0 ≡ ok tt
unfolding logout_all revoke_all_sessions_for_user
signed_out_all = refl

abbrev first_user : User
first_user = user 10 "a@x.org" UserStatus.active

admitted : (authenticate digest ttl passwords "a@x.org" "correct" quiet world).0 ≡ ok first_user
unfolding authenticate get_user_by_identifier contains_at
admitted = refl

authenticate-Admits_example : Admits passwords "a@x.org" "correct" first_user (database false)
authenticate-Admits_example =
    authenticate-Admits digest ttl passwords "a@x.org" "correct" first_user quiet world admitted

-- Nobody has this address.
authenticate-uniform_example :
    (authenticate digest ttl passwords "nobody@x.org" "correct" quiet world).0
    ≡ err invalid_credentials
unfolding contains_at
authenticate-uniform_example =
    authenticate-uniform digest ttl passwords "nobody@x.org" "correct" [] quiet world refl
      (inl (refl, refl))

abbrev pub registration : RegisterInput
registration = record {
  email = "new@x.org";
  phone = "";
  password = "correct";
  first_name = "N";
  last_name = "";
  user_agent = "";
  ip_address = "";
}

abbrev pub registered : RegisterResult
registered = record {
  tokens = tokens;
  user = record { id = 110; email = "new@x.org"; phone = ""; first_name = "N"; last_name = "" };
  organization = record { id = 120; name = "N's Workspace"; org_type = OrganizationType.personal };
}

signed_up : (register digest ttl passwords plain registration quiet world).0 ≡ ok registered
unfolding register register_tx create_user bootstrap create get_role_id_by_kind add_owner_membership
    provision_default_roles clone_roles template_grants add_grants grants_of grants_to new_tokens
    generate_opaque_token create_session log_best_effort
signed_up = refl

register-IsOwner_example :
    IsOwner 120 110 (register digest ttl passwords plain registration quiet world).1.db
register-IsOwner_example =
    register-IsOwner digest ttl passwords plain registration registered quiet world
      (refl, (refl, (refl, (refl, tt)))) signed_up

register-SignedIn_example :
    Opened digest ttl 110 tokens (register digest ttl passwords plain registration quiet world).1.db
register-SignedIn_example =
    register-SignedIn digest ttl passwords plain registration registered quiet world signed_up

register-Atomic_example :
    Atomic (Remains digest ttl registration) (register digest ttl passwords plain registration)
register-Atomic_example = register-Atomic digest ttl passwords plain registration

abbrev pub credentials : LoginInput
credentials = record {
  identifier = "a@x.org";
  password = "correct";
  user_agent = "";
  ip_address = "";
}

abbrev logged_in : LoginResult
logged_in = record {
  tokens = tokens;
  user = record { id = 10; email = "a@x.org"; phone = ""; first_name = "A"; last_name = "" };
}

signed_in : (login digest ttl passwords credentials quiet world).0 ≡ ok logged_in
unfolding login authenticate get_user_by_identifier contains_at new_tokens generate_opaque_token
    create_session log_best_effort
signed_in = refl

login-SignedIn_example :
    SignedIn 10 5 5 1500 2500 (login digest ttl passwords credentials quiet world).1.db
login-SignedIn_example =
    login-SignedIn digest ttl passwords credentials logged_in quiet world signed_in

abbrev phonebook : Phonebook
phonebook = record { to_lower = λ s. s; to_e164 = λ s r. some s }

-- The header differs from the cookie.
abbrev forged : Request
forged = record {
  method = "POST";
  headers = ("X-CSRF-Token", "guess") ∷ [];
  cookies = ("csrf_token", "secret") ∷ ("refresh_token", "refresh") ∷ [];
  path_values = [];
  query = [];
  remote_addr = "10.0.0.1:80";
  max_body = none;
  context = background;
}

handle_refresh-guards_example :
    (handle_refresh phonebook (λ s. some s) digest ttl passwords plain forged quiet world
      ≡ (ok (error 403 "csrf_check_failed" "CSRF validation failed"), world))
    ⊎ DoubleSubmits forged
handle_refresh-guards_example =
    handle_refresh-guards phonebook (λ s. some s) digest ttl passwords plain forged quiet world
