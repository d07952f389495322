-- ===== src/Auth/Credentials.antt =====
-- The checks of Login: who gets in, and what a refusal tells.
use multi_tenant_authorizati.Base.{
  ◌≡◌, ◌⊎◌, inl, inr, Bool, true, false, Option, none, some, arith, if◌then◌else◌, Option-cases,
  Bool-cases, ◌≢◌, subst, String,
}
use multi_tenant_authorizati.Apperrors.{Error, ok, err, internal_server, invalid_credentials}
use multi_tenant_authorizati.Db.Schema.{Digest, User, Db, user_active}
use multi_tenant_authorizati.Db.Go.{Env, World}
use multi_tenant_authorizati.Text.{contains_at}
use multi_tenant_authorizati.Scan.{Runes}
use multi_tenant_authorizati.Auth.Repository.{find_user, get_user_by_identifier}
use multi_tenant_authorizati.Auth.Service.{TokenTtl, Passwords, authenticate}

-- The user that the identifier names: an identifier with an '@' is an email.
abbrev pub user_of : String → Db → Option User
user_of identifier d =
    if contains_at identifier
    then find_user (λ u. u.email) identifier d
    else find_user (λ u. u.phone) identifier d

-- The user is the one of the identifier, active, and the password fits the stored hash.
abbrev pub Admits : Passwords → String → String → User → Db → Type 0
Admits passwords identifier password u d =
    (user_of identifier d ≡ some u)
    × (passwords.verify u.password_hash password ≡ some true)
    × (user_active u.status ≡ true)

-- What is answered where a verification lets nobody in, by its outcome.
abbrev pub refusal : Option Bool → Error
refusal none = internal_server
refusal (some _) = invalid_credentials

module _ (sha256 : String → Digest) (ttl : TokenTtl) (passwords : Passwords) where
  -- A sign-in that passes the checks is that of an active user with the right password.
  pub authenticate-Admits :
      (identifier password : String) (u : User) (e : Env) (w : World)
      → (authenticate sha256 ttl passwords identifier password e w).0 ≡ ok u
      → Admits passwords identifier password u w.db
  unfolding authenticate get_user_by_identifier
  authenticate-Admits identifier password u e w done =
      elim (Option-cases (user_of identifier w.db)) [
        | inl missing ↦ ground arith
        | inr (x, found) ↦ ground arith
      ]

  missing-refusal :
      (identifier password : String) (e : Env) (w : World)
      → e.fails w.step ≡ false
      → user_of identifier w.db ≡ none
      → (authenticate sha256 ttl passwords identifier password e w).0
        ≡ err (refusal (passwords.verify passwords.dummy_hash password))
  unfolding authenticate get_user_by_identifier
  missing-refusal identifier password e w up missing =
      elim (Option-cases (passwords.verify passwords.dummy_hash password)) [
        | inl failed ↦ ground arith
        | inr (b, verified) ↦ elim (Bool-cases b) [
          | inl fits ↦ ground arith
          | inr differs ↦ ground arith
        ]
      ]

  unfit-refusal :
      (identifier password : String) (u : User) (e : Env) (w : World)
      → e.fails w.step ≡ false
      → user_of identifier w.db ≡ some u
      → passwords.verify u.password_hash password ≢ some true
      → (authenticate sha256 ttl passwords identifier password e w).0
        ≡ err (refusal (passwords.verify u.password_hash password))
  unfolding authenticate get_user_by_identifier
  unfit-refusal identifier password u e w up found unfit =
      elim (Option-cases (passwords.verify u.password_hash password)) [
        | inl failed ↦ ground arith
        | inr (b, verified) ↦ elim (Bool-cases b) [
          | inl fits ↦ absurd (unfit (ground arith))
          | inr differs ↦ ground arith
        ]
      ]

  -- Nobody is let in, and `hash` is what the password is verified against: the dummy hash where no
  -- user has the identifier, and the stored one where the password does not fit.
  abbrev pub LetsNobodyIn : String → String → Db → Runes → Type 0
  LetsNobodyIn identifier password d hash =
      ((user_of identifier d ≡ none) × (hash ≡ passwords.dummy_hash))
      ⊎ ((u : User) × (user_of identifier d ≡ some u)
          × (hash ≡ u.password_hash)
          × (passwords.verify hash password ≢ some true))

  -- While the database answers, an identifier that no user has and a password that does not fit
  -- are answered alike, by the outcome of one verification, which is against the dummy hash for the
  -- one and against the stored hash for the other: ErrInvalidCredentials whatever it finds, and
  -- ErrInternalServer if it fails.
  pub authenticate-uniform :
      (identifier password : String) (hash : Runes) (e : Env) (w : World)
      → e.fails w.step ≡ false
      → LetsNobodyIn identifier password w.db hash
      → (authenticate sha256 ttl passwords identifier password e w).0
        ≡ err (refusal (passwords.verify hash password))
  authenticate-uniform identifier password hash e w up (inl (missing, is)) =
      rw is (missing-refusal identifier password e w up missing)
  authenticate-uniform identifier password hash e w up (inr (u, found, is, unfit)) = rw is (
      unfit-refusal identifier password u e w up found
        (subst (λ h. passwords.verify h password ≢ some true) is unfit))
