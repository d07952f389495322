-- ===== src/Tests/SessionRuns.antt =====
-- The theorems on sessions and their ends, at the small database.
use multi_tenant_authorizati.Base.{◌≡◌, ◌≢◌, refl, true, false, arith}
use multi_tenant_authorizati.Apperrors.{ok}
use multi_tenant_authorizati.Db.Rows.{count_rows}
use multi_tenant_authorizati.Db.Schema.{Session, Db}
use multi_tenant_authorizati.Audit.{log_best_effort}
use multi_tenant_authorizati.Text.{contains_at}
use multi_tenant_authorizati.Auth.Repository.{
  create_session, get_user_by_identifier, get_active_session_by_access_token_hash,
}
use multi_tenant_authorizati.Auth.Service.{
  refresh, login, logout, logout_all, authenticate, new_tokens,
}
use multi_tenant_authorizati.Auth.Sessions.{IsValid}
use multi_tenant_authorizati.Auth.System.{
  sign_in, sign_out, perform, Reaches, here, step, reaches-Sound,
}
use multi_tenant_authorizati.Auth.Families.{DrawsFresh}
use multi_tenant_authorizati.System.Calls as All
use multi_tenant_authorizati.System.Sessions.{
  refresh-Spent_forever, logout-Spent_forever, logout_all-Spent_forever,
}
use multi_tenant_authorizati.Tests.Fixtures.{quiet, digest, plain, database, world, session}
use multi_tenant_authorizati.Tests.AuthRuns.{
  ttl, passwords, input, tokens, credentials, sessions-IsValid, refreshed, signed_out,
  signed_out_all,
}

-- A sign-in, and the sign-out from the older session.
abbrev second : Db
second = (perform digest ttl passwords plain (sign_in credentials) quiet world).1.db

abbrev third : Db
third =
    (perform digest ttl passwords plain (sign_out 70) quiet (record { db = second; step = 7 })).1.db

second_opened : count_rows (λ (s : Session). true) second.sessions ≡ 2
unfolding perform login authenticate get_user_by_identifier contains_at new_tokens create_session
    log_best_effort
second_opened = refl

quiet-DrawsFresh : DrawsFresh quiet (database false).sessions
quiet-DrawsFresh k = ground arith

abbrev run : Reaches digest ttl passwords plain (database false) third
run =
    step second (sign_out 70) quiet 7 tt
      (step (database false) (sign_in credentials) quiet 0 quiet-DrawsFresh here)

reaches-Sound_example : IsValid third.sessions
reaches-Sound_example =
    reaches-Sound digest ttl passwords plain (database false) third (sessions-IsValid false) run

-- Between the two uses of a token, its user signs in again.
abbrev rotated_db : Db
rotated_db = (refresh digest ttl plain input quiet world).1.db

abbrev later : Db → Db
later d =
    (All.perform digest ttl passwords plain (All.Call.sign_in credentials) quiet
      (record { db = d; step = 30 })).1.db

abbrev to_later : (d : Db) → All.Reaches digest ttl passwords plain d (later d)
to_later d = All.Reaches.step d (All.Call.sign_in credentials) quiet 30 All.Reaches.here

refresh-Spent_forever_example :
    (refresh digest ttl plain input quiet (record { db = later rotated_db; step = 50 })).0
    ≢ ok tokens
refresh-Spent_forever_example =
    refresh-Spent_forever digest ttl passwords plain input tokens quiet world
      (sessions-IsValid false) refreshed (later rotated_db) (to_later rotated_db) input quiet 50
      tokens refl

logout-Spent_forever_example :
    ((get_active_session_by_access_token_hash 1 quiet
        (record { db = later (logout 70 quiet world).1.db; step = 50 })).0
      ≢ ok (session false))
    × ((refresh digest ttl plain input quiet
          (record { db = later (logout 70 quiet world).1.db; step = 50 })).0
        ≢ ok tokens)
logout-Spent_forever_example =
    logout-Spent_forever digest ttl passwords plain 1 (session false) quiet world
      (sessions-IsValid false) refl signed_out (later (logout 70 quiet world).1.db)
      (to_later (logout 70 quiet world).1.db) input refl quiet 50 (session false) tokens

logout_all-Spent_forever_example :
    ((get_active_session_by_access_token_hash 1 quiet
        (record { db = later (logout_all 10 quiet world).1.db; step = 50 })).0
      ≢ ok (session false))
    × ((refresh digest ttl plain input quiet
          (record { db = later (logout_all 10 quiet world).1.db; step = 50 })).0
        ≢ ok tokens)
logout_all-Spent_forever_example =
    logout_all-Spent_forever digest ttl passwords plain 1 (session false) quiet world
      (sessions-IsValid false) refl signed_out_all (later (logout_all 10 quiet world).1.db)
      (to_later (logout_all 10 quiet world).1.db) input refl quiet 50 (session false) tokens
