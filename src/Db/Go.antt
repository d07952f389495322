-- ===== src/Db/Go.antt =====
-- The monad of the Go code: it talks to a database that may fail, reads the clock and the random
-- source, and returns a value or an error. Statements change the database; `World.step` counts
-- the interactions, and `Env` says how each one turns out.
use multi_tenant_authorizati.Db.Rows.{All}
use multi_tenant_authorizati.Base.{
  ◌<◌, ◌≡◌, ℕ, suc, String, Bool, Option, none, some, List, if◌then◌else◌,
}
use multi_tenant_authorizati.Apperrors.{Error, database, Result, ok, err}
use multi_tenant_authorizati.Db.Schema.{Db, Uuid, Time}

-- What the surroundings answer at the n-th interaction.
pub record Env : Type 0 where
  -- the statement fails: a lost connection, a timeout
  pub fails : ℕ → Bool
  pub clock : ℕ → Time
  -- the text that 32 random bytes encode to; none if rand.Read fails
  pub entropy : ℕ → Option String
  -- 16 random bytes; none if rand.Read fails
  pub salt : ℕ → Option (List ℕ)
  pub salt_bytes : (n : ℕ) (s : List ℕ) → salt n ≡ some s → All (λ b. b < 256) s
  -- the k-th call of gen_random_uuid() in the n-th statement
  pub uuid : ℕ → ℕ → Uuid

pub record World : Type 0 where
  pub db : Db
  pub step : ℕ

abbrev pub Go : Type 0 → Type 0
Go A = Env → World → Result A × World

abbrev pub pure : {A : Type 0} → A → Go A
pure a e w = (ok a, w)

abbrev pub raise : {A : Type 0} → Error → Go A
raise x e w = (err x, w)

infixl 5 ◌>>=◌ ◌>>◌
abbrev pub ◌>>=◌ : {A B : Type 0} → Go A → (A → Go B) → Go B
◌>>=◌ m f e w = let (r, w') = m e w in elim r [ ok a ↦ f a e w' | err x ↦ (err x, w') ]

abbrev pub ◌>>◌ : {B : Type 0} → Go (Unit {0}) → Go B → Go B
m >> k = m >>= λ _. k

-- `if b { return err }`
abbrev pub raise_if : Bool → Error → Go (Unit {0})
raise_if b x e w = (if b then err x else ok tt, w)

-- The value of a call that may fail.
abbrev pub from_option : {A : Type 0} → Error → Option A → Go A
from_option x none = raise x
from_option x (some a) = pure a

-- The error of `m` as a value, for code that looks at it.
abbrev pub try : {A : Type 0} → Go A → Go (Result A)
try m e w = let (r, w') = m e w in (ok r, w')

abbrev advance : World → World
advance w = record w { step = suc w.step }

-- `time.Now()`
abbrev pub now : Go Time
now e w = (ok (e.clock w.step), advance w)

-- What a statement yields: a row or a command tag, pgx.ErrNoRows, unique_violation (23505) with
-- its constraint, or another error.
pub data Outcome (C A : Type 0) : Type 0 where
  row : A → Outcome C A
  no_rows : Outcome C A
  unique_violation : C → Outcome C A
  failed : Outcome C A

-- A statement sees the time, and the identifiers that it may generate.
pub record Moment : Type 0 where
  pub now : Time
  pub fresh : ℕ → Uuid

abbrev pub Statement : Type 0 → Type 0 → Type 0
Statement C A = Moment → Db → Outcome C A × Db

abbrev pub moment : Env → ℕ → Moment
moment e n = record { now = e.clock n; fresh = e.uuid n }

-- `Exec`, `Query` and `QueryRow` of a db.Querier.
abbrev pub statement : {C A : Type 0} → Statement C A → Go (Outcome C A)
statement s e w =
    if e.fails w.step
    then (ok failed, advance w)
    else (let (o, d) = s (moment e w.step) w.db in (ok o, record { db = d; step = suc w.step }))

-- A statement that only reads.
abbrev select_row : {A : Type 0} → (Db → Option A) → Statement Unit A
select_row f t d = elim (f d) [ none ↦ (no_rows, d) | some a ↦ (row a, d) ]

-- The usual reading of an outcome: ErrNoRows is `missing`, all else is ErrDatabase.
abbrev pub scan : {C A : Type 0} → Error → Outcome C A → Go A
scan missing (row a) = pure a
scan missing no_rows = raise missing
scan missing _ = raise database

abbrev pub query_row : {A : Type 0} → Error → (Db → Option A) → Go A
query_row missing f = do scan missing (← statement (select_row f))

-- A query of many rows; a fault while they are read is a fault of the query.
abbrev pub query_rows : {A : Type 0} → (Db → List A) → Go (List A)
query_rows f = do scan {C = Unit {0}} database (← statement (λ t d. (row (f d), d)))

-- An UPDATE or a DELETE: the number of affected rows.
abbrev pub exec_rows : {C : Type 0} → Statement C ℕ → Go ℕ
exec_rows s = do scan database (← statement s)

-- `rand.Read` of 32 bytes and their base64 text.
abbrev pub random_text : Error → Go String
random_text x e w = (elim (e.entropy w.step) [ none ↦ err x | some t ↦ ok t ], advance w)

-- `rand.Read` of the 16 bytes of a salt.
abbrev pub random_salt : Error → Go (List ℕ)
random_salt x e w = (elim (e.salt w.step) [ none ↦ err x | some t ↦ ok t ], advance w)
