-- ===== src/Auth/Enrolment.antt =====
-- What Register stores is what the checks of Login look for.
use multi_tenant_authorizati.Scan.{Runes}
use multi_tenant_authorizati.Auth.Password.Verifies.{IsIdKey, verify_password-hash_password}
use multi_tenant_authorizati.Auth.Password.{Argon2, hash_password, verify_password}
use multi_tenant_authorizati.Base.{
  ◌≡◌, refl, sym, subst, true, false, none, some, List, ℕ, String, str_eq, arith, if◌then◌else◌, ap,
  inl, inr, Bool-cases, eq_iff,
}
use multi_tenant_authorizati.Apperrors.{ok}
use multi_tenant_authorizati.Db.Rows.{All, first_row, is_value}
use multi_tenant_authorizati.Db.Schema.{UserStatus, Uuid, Digest, User, Db, user_active, personal}
use multi_tenant_authorizati.Db.Go.{Env, World}
use multi_tenant_authorizati.Db.Driver.{Driver}
use multi_tenant_authorizati.Db.Ensures.{
  Ensures, Ensures-bind, Ensures-raise_if, Ensures-random_salt, Ensures-from_option, Ensures-weaken,
  Ensures-assume, Ensures-begin_func, Ensures-pure, Ensures-frame, Ensures-both, Ensures-const,
}
use multi_tenant_authorizati.Text.{contains_at}
use multi_tenant_authorizati.Auth.Repository.{NewUser, create_user, get_user_by_identifier}
use multi_tenant_authorizati.Auth.Service.{
  Passwords, TokenTtl, TokenPair, RegisterInput, RegisterResult, register_tx, register,
  workspace_name, authenticate,
}
use multi_tenant_authorizati.Auth.Rotation.{new_tokens-Ensures}
use multi_tenant_authorizati.Base64.{IsByte}
use multi_tenant_authorizati.Auth.Users.{
  bootstrap_users, create_session_users, log_best_effort_users,
}

-- The active user of the email, with this identifier and this stored hash.
abbrev pub Holds : String → Uuid → List ℕ → List User → Type 0
Holds email id stored us =
    (u : User) × (first_row
        (λ (x : User). if is_value (λ s. str_eq s email) x.email then some x else none) us
      ≡ some u)
    × (u.id ≡ id)
    × (u.password_hash ≡ stored)
    × (user_active u.status ≡ true)

-- The row that CreateUser writes.
abbrev user_row : Uuid → NewUser → User
user_row id u = record {
  id = id;
  email = some u.email;
  phone = if str_eq u.phone "" then none else some u.phone;
  password_hash = u.password_hash;
  first_name = u.first_name;
  last_name = if str_eq u.last_name "" then none else some u.last_name;
  status = UserStatus.active;
}

contains_at_text : (s : String) → contains_at s ≡ true → str_eq s "" ≡ false
unfolding contains_at
contains_at_text s h = elim (Bool-cases (str_eq s "")) [
  | inl empty ↦ let same = ap contains_at ((eq_iff s "").0 empty) in absurd (cc)
  | inr text ↦ text
]

create_user-Holds :
    (u : NewUser)
    → contains_at u.email ≡ true
    → Ensures (λ _. Unit {0}) (create_user u) (λ id d. Holds u.email id u.password_hash d.users)
unfolding create_user
create_user-Holds u mail = record {
  at = λ e w a p h.
      let same = (eq_iff u.email u.email).1 refl in
      let text = contains_at_text u.email mail in
      (user_row (e.uuid w.step 0) u, ground arith, ground arith, refl, refl);
}

-- What the service relies on: a password fits the hash that was made of it.
abbrev pub Fits : Passwords → Type 0
Fits passwords =
    (salt : List ℕ) (password : String) (stored : List ℕ)
    → All IsByte salt
    → passwords.hash salt password ≡ some stored
    → passwords.verify stored password ≡ some true

-- password.go as the service uses it.
abbrev pub argon2id : Argon2 → Runes → Passwords
argon2id lib dummy = record {
  hash = hash_password lib;
  verify = verify_password lib;
  dummy_hash = dummy;
}

-- A password of password.go fits the hash that was made of it.
pub argon2id-Fits : (lib : Argon2) (dummy : Runes) → IsIdKey lib → Fits (argon2id lib dummy)
argon2id-Fits lib dummy law salt password stored bytes made =
    let (stored', b, made', read, iff) =
      verify_password-hash_password lib salt password password law bytes in
    let yes = iff.1 refl in ground arith

module _ (sha256 : String → Digest) (ttl : TokenTtl) where
  register_tx-Holds :
      (input : RegisterInput) (stored : List ℕ)
      → contains_at input.email ≡ true
      → Ensures
          (λ _. Unit {0})
          (register_tx sha256 ttl input stored)
          (λ a d. Holds input.email a.0 stored d.users)
  unfolding register_tx
  register_tx-Holds input stored mail = Ensures-bind (create_user-Holds _ mail) λ user.
      Ensures-bind
        (bootstrap_users (Holds input.email user stored)
          (workspace_name sha256 ttl input.first_name) personal user)
        λ org. Ensures-bind (new_tokens-Ensures sha256 ttl) λ tokens.
          Ensures-bind (create_session_users (Holds input.email user stored) _) λ _.
            Ensures-weaken
              (λ a d q.
                subst (λ (x : Uuid × Uuid × TokenPair). Holds input.email x.0 stored d.users)
                  (sym q.1) q.0)
              (Ensures-pure _)

  -- The user of the result is held under a hash of the password.
  abbrev pub Enrolled : Passwords → RegisterInput → Uuid → Db → Type 0
  Enrolled passwords input id d =
      (stored : List ℕ) × (salt : List ℕ) × All IsByte salt
      × (passwords.hash salt input.password ≡ some stored)
      × Holds input.email id stored d.users

  pub register-Enrolled :
      (passwords : Passwords) (pg : Driver) (input : RegisterInput) (result : RegisterResult)
      (e : Env) (w : World)
      → contains_at input.email ≡ true
      → (register sha256 ttl passwords pg input e w).0 ≡ ok result
      → Enrolled passwords input result.user.id (register sha256 ttl passwords pg input e w).1.db
  unfolding register
  register-Enrolled passwords pg input result e w mail h =
      (Ensures-bind {P = λ _. Unit {0}}
          {Q = λ (a : RegisterResult) d. Enrolled passwords input a.user.id d}
          (Ensures-raise_if _ _)
          λ _. Ensures-bind (Ensures-random_salt _) λ salt.
            Ensures-bind (Ensures-from_option _ _) λ stored.
              Ensures-bind
                (Ensures-both
                  (Ensures-assume
                    {R = λ _. All IsByte salt × (passwords.hash salt input.password ≡ some stored)}
                    (λ d q. (q.0.1, q.1)) Ensures-const)
                  (Ensures-assume (λ d q. tt)
                    (Ensures-begin_func pg (register_tx-Holds input stored mail))))
                λ a.
                  Ensures-bind
                    (Ensures-frame (log_best_effort_users (Holds input.email a.0 stored) _))
                    λ _.
                      Ensures-weaken
                        (λ x d q.
                          subst (λ (y : RegisterResult). Enrolled passwords input y.user.id d)
                            (sym q.1) (stored, salt, q.0.0.0, q.0.0.1, q.0.1))
                        (Ensures-pure _)).at
        e w result tt h

  pub Enrolled-authenticate :
      (passwords : Passwords) (input : RegisterInput) (id : Uuid) (e : Env) (w : World)
      → Fits passwords
      → contains_at input.email ≡ true
      → e.fails w.step ≡ false
      → Enrolled passwords input id w.db
      → (u : User) × ((authenticate sha256 ttl passwords input.email input.password e w).0 ≡ ok u)
        × (u.id ≡ id)
  unfolding authenticate get_user_by_identifier
  Enrolled-authenticate passwords input id e w fits mail up
        (stored, salt, bytes, made, (u, found, same, is, active)) =
      let verified = fits salt input.password stored bytes made in (u, ground arith, same)

  -- The checks of Login pass for the email and the password of a registration, while the users are
  -- as Register left them and the database answers.
  register-authenticate :
      (passwords : Passwords) (pg : Driver) (input : RegisterInput) (result : RegisterResult)
      (e e' : Env) (w : World) (n : ℕ)
      → Fits passwords
      → contains_at input.email ≡ true
      → (register sha256 ttl passwords pg input e w).0 ≡ ok result
      → e'.fails n ≡ false
      → (u : User) × ((authenticate sha256 ttl passwords input.email input.password e'
            (record { db = (register sha256 ttl passwords pg input e w).1.db; step = n })).0
          ≡ ok u)
        × (u.id ≡ result.user.id)
  register-authenticate passwords pg input result e e' w n fits mail h up =
      Enrolled-authenticate passwords input result.user.id e' _ fits mail up
        (register-Enrolled passwords pg input result e w mail h)
