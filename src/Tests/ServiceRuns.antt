-- ===== src/Tests/ServiceRuns.antt =====
-- Passwords, and the calls of the whole service, at the small database.
use multi_tenant_authorizati.Base.{
  ℕ, ◌+◌, subst, zero, suc, ◌≡◌, ◌<◌, ◌↔◌, refl, ap, String, str_eq, Bool, true, false, ◌||◌, none,
  some, [], ◌∷◌, ltb, arith, if◌then◌else◌,
}
use multi_tenant_authorizati.Apperrors.{ok}
use multi_tenant_authorizati.Db.Rows.{All}
use multi_tenant_authorizati.Db.Schema.{Db}
use multi_tenant_authorizati.Base64.{Bytes, IsByte}
use multi_tenant_authorizati.Scan.{Runes, length}
use multi_tenant_authorizati.Text.{contains_at}
use multi_tenant_authorizati.Auth.Password.{
  Argon2, hash_password, verify_password, phc, argon_version,
}
use multi_tenant_authorizati.Auth.Password.Verifies.{
  IsIdKey, key_of, verify_password-phc, verify_password-hash_password,
}
use multi_tenant_authorizati.Auth.Repository.{create_user, create_session}
use multi_tenant_authorizati.Auth.Service.{
  Passwords, LoginInput, LoginResult, login, register, register_tx, new_tokens,
  generate_opaque_token,
}
use multi_tenant_authorizati.Db.Rows.{exists_row}
use multi_tenant_authorizati.Auth.Sessions.{is_taken}
use multi_tenant_authorizati.Auth.Enrolment.{argon2id, argon2id-Fits}
use multi_tenant_authorizati.Auth.Reentry.{CanSignIn, register-login}
use multi_tenant_authorizati.Db.Go.{Env}
use multi_tenant_authorizati.Audit.{log_best_effort}
use multi_tenant_authorizati.Organization.Repository.{
  bootstrap, create, get_role_id_by_kind, add_owner_membership,
}
use multi_tenant_authorizati.Db.Provision.{
  provision_default_roles, clone_roles, template_grants, add_grants, grants_of, grants_to,
}
use multi_tenant_authorizati.System.Governed.{IsGoverned}
use multi_tenant_authorizati.System.Calls.{
  Reaches, here, step, found, delete, perform, reaches-IsGoverned,
}
use multi_tenant_authorizati.Tests.Fixtures.{
  quiet, digest, plain, database, world, salt, salt_bytes_of,
}
use multi_tenant_authorizati.Tests.AuthRuns.{ttl, registration, registered}
use multi_tenant_authorizati.Tests.MembershipRuns.{database-IsValid}

-- A key that tells the right password from others only.
abbrev repeat : ℕ → ℕ → Bytes
repeat zero b = []
repeat (suc n) b = b ∷ repeat n b

abbrev mark : String → ℕ
mark s = if str_eq s "correct" then 1 else 2

abbrev toy : Argon2
toy = record {
  id_key =
      λ password salt t m p n. if ltb t 1 || ltb p 1 then none else some (repeat n (mark password));
}

repeat-IsByte : (n b : ℕ) → b < 256 → All IsByte (repeat n b)
repeat-IsByte zero b h = tt
repeat-IsByte (suc n) b h = (h, repeat-IsByte n b h)

length-repeat : (n b : ℕ) → length (repeat n b) ≡ n
length-repeat zero b = refl
length-repeat (suc n) b = ap suc (length-repeat n b)

mark-IsByte : (s : String) → mark s < 256
mark-IsByte s = ground arith

toy-IsIdKey : IsIdKey toy
toy-IsIdKey password salt t m p n ht hp hn = (
  repeat n (mark password),
  ground arith,
  repeat-IsByte n (mark password) (mark-IsByte password),
  length-repeat n (mark password),
)

salt-IsByte : All IsByte salt
salt-IsByte = salt_bytes_of salt refl

verify_password-phc_example :
    ((verify_password toy (phc argon_version 65536 3 4 salt (5 ∷ [])) "correct" ≡ some true)
      ↔ (toy.id_key "correct" salt 3 65536 4 1 ≡ some (5 ∷ [])))
    × ((verify_password toy (phc argon_version 65536 3 4 salt (5 ∷ [])) "correct" ≡ none)
        ↔ (toy.id_key "correct" salt 3 65536 4 1 ≡ none))
verify_password-phc_example =
    verify_password-phc toy 65536 3 4 salt (5 ∷ []) "correct" (omega arith) (omega arith)
      (omega arith) (omega arith) salt-IsByte (omega arith, tt)

verify_password-hash_password_example :
    (stored : Runes) × (b : Bool) × (hash_password toy salt "correct" ≡ some stored)
    × (verify_password toy stored "wrong" ≡ some b)
    × ((b ≡ true) ↔ (key_of toy salt "wrong" ≡ key_of toy salt "correct"))
verify_password-hash_password_example =
    verify_password-hash_password toy salt "correct" "wrong" toy-IsIdKey salt-IsByte

abbrev toy_passwords : Passwords
toy_passwords = argon2id toy []

enrolled : (register digest ttl toy_passwords plain registration quiet world).0 ≡ ok registered
unfolding register register_tx create_user bootstrap create get_role_id_by_kind add_owner_membership
    provision_default_roles clone_roles template_grants add_grants grants_of grants_to new_tokens
    generate_opaque_token create_session log_best_effort hash_password
enrolled = refl

mail : contains_at "new@x.org" ≡ true
unfolding contains_at
mail = refl

-- The sign-in draws a token and identifiers that no session has.
abbrev other : Env
other = record quiet { entropy = λ _. some "invite"; uuid = λ n k. 5000 + k }

other-CanSignIn :
    CanSignIn digest other
      (register digest ttl toy_passwords plain registration quiet world).1.db.sessions
unfolding register register_tx create_user bootstrap create get_role_id_by_kind add_owner_membership
    provision_default_roles clone_roles template_grants add_grants grants_of grants_to new_tokens
    generate_opaque_token create_session log_best_effort hash_password
other-CanSignIn = record {
  answers = λ k. refl;
  draws = λ k. ("invite", refl);
  free = λ i j k access refresh a r.
      let same : "invite" ≡ access = ground arith in
      let same' : "invite" ≡ refresh = ground arith in
      subst
        (λ (q : String × String).
          exists_row (is_taken (other.uuid i 0) (digest q.1) (digest q.0))
            (register digest ttl toy_passwords plain registration quiet world).1.db.sessions
          ≡ false)
        (λ n. (same n, same' n)) refl;
}

abbrev signing_in : LoginInput
signing_in = record {
  identifier = "new@x.org";
  password = "correct";
  user_agent = "";
  ip_address = "";
}

register-login_example :
    (r : LoginResult) × ((login digest ttl toy_passwords signing_in other (record {
      db = (register digest ttl toy_passwords plain registration quiet world).1.db;
      step = 20;
    })).0
      ≡ ok r)
    × (r.user.id ≡ 110)
register-login_example =
    register-login digest ttl toy_passwords plain registration registered signing_in quiet other
      world 20 (argon2id-Fits toy [] toy-IsIdKey) mail enrolled refl refl other-CanSignIn

database-IsGoverned : IsGoverned (database false)
database-IsGoverned = record { valid = database-IsValid; owned = (omega arith, (omega arith, tt)) }

-- Organization 1 is deleted after a new one has been founded.
abbrev founding : Db
founding = (perform digest ttl toy_passwords plain (found 13 "New") quiet world).1.db

abbrev ending : Db
ending =
    (perform digest ttl toy_passwords plain (delete 1) quiet
      (record { db = founding; step = 9 })).1.db

calls : Reaches digest ttl toy_passwords plain (database false) ending
calls = step founding (delete 1) quiet 9 (step (database false) (found 13 "New") quiet 0 here)

reaches-IsGoverned_example : IsGoverned ending
reaches-IsGoverned_example =
    reaches-IsGoverned digest ttl toy_passwords plain (database false) ending database-IsGoverned
      calls
