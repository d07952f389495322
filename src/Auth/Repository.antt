-- ===== src/Auth/Repository.antt =====
-- internal/auth/repository.go, query by query.
use multi_tenant_authorizati.Base.{
  ℕ, String, Bool, true, false, ◌&&◌, ◌||◌, not, Option, none, some, List, ◌∷◌, map, ◌==◌, str_eq,
  ltb, if◌then◌else◌,
}
use multi_tenant_authorizati.Apperrors.{
  email_already_exists, phone_already_exists, database, user_not_found, invalid_token,
}
use multi_tenant_authorizati.Db.Rows.{
  exists_row, count_rows, update_rows, first_row, select, order_by_desc, is_value,
}
use multi_tenant_authorizati.Db.Schema.{
  Uuid, Time, Digest, User, UserStatus, Session, Db, user_active,
}
use multi_tenant_authorizati.Db.Go.{
  Go, pure, raise, raise_if, ◌>>=◌, ◌>>◌, now, Statement, Outcome, row, unique_violation, failed,
  statement, query_row, query_rows, exec_rows, scan,
}
use multi_tenant_authorizati.Membership.Repository.{user_exists}
use multi_tenant_authorizati.Text.{contains_at}

pub record NewUser : Type 0 where
  pub email : String
  pub phone : String
  pub password_hash : List ℕ
  pub first_name : String
  pub last_name : String

-- `utils.NullableString`
abbrev nullable_string : String → Option String
nullable_string s = if str_eq s "" then none else some s

-- The unique constraints of users, by name.
pub data UserKey : Type 0 where
  users_pkey users_email_key users_phone_key : UserKey

abbrev pub takes : Option String → Option String → Bool
takes none _ = false
takes (some s) o = is_value (λ v. str_eq v s) o

abbrev is_null : Option String → Bool
is_null none = true
is_null (some _) = false

abbrev insert_user : NewUser → Statement UserKey Uuid
insert_user u t d =
    if is_null (nullable_string u.email) && is_null (nullable_string u.phone)
    then (failed, d)
    else (if exists_row (λ (x : User). x.id == t.fresh 0) d.users
        then (unique_violation users_pkey, d)
        else (if exists_row (λ (x : User). takes (nullable_string u.email) x.email) d.users
            then (unique_violation users_email_key, d)
            else (if exists_row (λ (x : User). takes (nullable_string u.phone) x.phone) d.users
                then (unique_violation users_phone_key, d)
                else (
                  row (t.fresh 0),
                  record d {
                    users =
                        record {
                          id = t.fresh 0;
                          email = nullable_string u.email;
                          phone = nullable_string u.phone;
                          password_hash = u.password_hash;
                          first_name = u.first_name;
                          last_name = nullable_string u.last_name;
                          status = UserStatus.active;
                        }
                        ∷ d.users;
                  },
                ))))

-- `switch pgErr.ConstraintName`
abbrev scan_user : Outcome UserKey Uuid → Go Uuid
scan_user (row id) = pure id
scan_user (unique_violation users_email_key) = raise email_already_exists
scan_user (unique_violation users_phone_key) = raise phone_already_exists
scan_user _ = raise database

unfoldable pub create_user : NewUser → Go Uuid
create_user u = do scan_user (← statement (insert_user u))

abbrev pub find_user : (User → Option String) → String → Db → Option User
find_user column v d =
    first_row (λ (u : User). if is_value (λ s. str_eq s v) (column u) then some u else none) d.users

-- An identifier with an '@' is an email, any other a phone number.
unfoldable pub get_user_by_identifier : String → Go User
get_user_by_identifier identifier = query_row user_not_found (
    if contains_at identifier
    then find_user (λ u. u.email) identifier
    else find_user (λ u. u.phone) identifier)

pub record NewSession : Type 0 where
  pub user_id : Uuid
  pub refresh_token_hash : Digest
  pub access_token_hash : Digest
  pub user_agent : String
  pub ip_address : String
  pub access_token_expires_at : Time
  pub refresh_token_expires_at : Time

-- The constraints of sessions: the primary key, the two UNIQUE columns, and the user. Every error
-- is ErrDatabase to the callers.
abbrev insert_session : (ℕ → Uuid) → Uuid → Time → NewSession → Db → Outcome Unit Uuid × Db
insert_session fresh family time s d =
    if exists_row
      (λ (x : Session).
        x.id == fresh 0
        || x.refresh_token_hash == s.refresh_token_hash
        || x.access_token_hash == s.access_token_hash)
      d.sessions
    then (unique_violation tt, d)
    else (if user_exists s.user_id d
        then (
          row (fresh 0),
          record d {
            sessions =
                record {
                  id = fresh 0;
                  user_id = s.user_id;
                  token_family_id = family;
                  refresh_token_hash = s.refresh_token_hash;
                  access_token_hash = s.access_token_hash;
                  user_agent = s.user_agent;
                  ip_address = s.ip_address;
                  revoked = false;
                  revoked_at = none;
                  access_token_expires_at = s.access_token_expires_at;
                  refresh_token_expires_at = s.refresh_token_expires_at;
                  created_at = time;
                }
                ∷ d.sessions;
          },
        )
        else (failed, d))

-- The family is the column's DEFAULT.
unfoldable pub create_session : NewSession → Go Uuid
create_session s = do
  scan database (← statement (λ t d. insert_session t.fresh (t.fresh 1) t.now s d))

unfoldable pub create_session_in_family : Uuid → NewSession → Go Uuid
create_session_in_family family s = do
  scan database (← statement (λ t d. insert_session t.fresh family t.now s d))

-- JOIN users u ON u.id = s.user_id AND u.status = 'active'
abbrev pub has_active_user : Db → Session → Bool
has_active_user d s = exists_row (λ (u : User). u.id == s.user_id && user_active u.status) d.users

abbrev pub session_by_access : Digest → Db → Option Session
session_by_access hash d =
    first_row
      (λ (s : Session). if s.access_token_hash == hash && has_active_user d s then some s else none)
      d.sessions

abbrev pub session_by_refresh : Digest → Db → Option Session
session_by_refresh hash d =
    first_row
      (λ (s : Session).
        if s.refresh_token_hash == hash && has_active_user d s then some s else none)
      d.sessions

-- The clock is read only if the session is not revoked.
unfoldable pub get_active_session_by_access_token_hash : Digest → Go Session
get_active_session_by_access_token_hash hash = do
  s ← query_row invalid_token (session_by_access hash)
  raise_if s.revoked invalid_token
  t ← now
  raise_if (ltb s.access_token_expires_at t) invalid_token
  pure s

unfoldable pub get_session_for_refresh : Digest → Go Session
get_session_for_refresh hash = query_row invalid_token (session_by_refresh hash)

-- `SET revoked = true, revoked_at = NOW() WHERE p AND revoked = false`
abbrev pub is_unrevoked : (Session → Bool) → Session → Bool
is_unrevoked p s = p s && not s.revoked

abbrev pub revoke_where : (Session → Bool) → Statement Unit ℕ
revoke_where p t d = (
  row (count_rows (is_unrevoked p) d.sessions),
  record d {
    sessions =
        update_rows (is_unrevoked p)
          (λ (s : Session). record s { revoked = true; revoked_at = some t.now }) d.sessions;
  },
)

abbrev pub has_id : Uuid → Session → Bool
has_id id s = s.id == id

abbrev pub in_family : Uuid → Session → Bool
in_family family s = s.token_family_id == family

abbrev pub is_of_user : Uuid → Session → Bool
is_of_user user s = s.user_id == user

unfoldable pub revoke_session : Uuid → Go Unit
revoke_session id = do _ ← exec_rows (revoke_where (has_id id)); pure tt

-- False means that another request has rotated the token.
unfoldable pub revoke_session_if_active : Uuid → Go Bool
revoke_session_if_active id = do
  affected ← exec_rows (revoke_where (has_id id))
  pure (affected == 1)

unfoldable pub revoke_family : Uuid → Go Unit
revoke_family family = do _ ← exec_rows (revoke_where (in_family family)); pure tt

unfoldable pub revoke_all_sessions_for_user : Uuid → Go Unit
revoke_all_sessions_for_user user = do _ ← exec_rows (revoke_where (is_of_user user)); pure tt

pub record SessionSummary : Type 0 where
  pub id : Uuid
  pub user_agent : String
  pub ip_address : String
  pub created_at : Time
  pub expires_at : Time

abbrev summary : Session → SessionSummary
summary s = record {
  id = s.id;
  user_agent = s.user_agent;
  ip_address = s.ip_address;
  created_at = s.created_at;
  expires_at = s.refresh_token_expires_at;
}

unfoldable pub list_active_sessions : Uuid → Go (List SessionSummary)
list_active_sessions user = query_rows λ d. map summary (
    order_by_desc (λ (s : Session). s.created_at)
      (select (is_unrevoked (is_of_user user)) d.sessions))
