-- ===== src/Migrate.antt =====
-- internal/migrate/migrate.go: applies the migration files that the database has not recorded.
pub mod Refines
pub mod Completes
pub mod Lock
use Prim.Native.String.{compare}
use Prim.Native.Nat.{Ordering}
use multi_tenant_authorizati.Base.{
  ℕ, suc, String, Bool, true, false, Option, none, some, List, [], ◌∷◌, str_eq, if◌then◌else◌,
}
use multi_tenant_authorizati.Db.Rows.{exists_row}

-- What fails; where a file is at fault, its name goes with the error.
pub data MigrateError : Type 0 where
  parse_database_url connect acquire_migration_lock create_schema_migrations list_migrations :
      MigrateError
  check read begin apply record_version commit : String → MigrateError

pub data Outcome (A : Type 0) : Type 0 where
  done : A → Outcome A
  failed : MigrateError → Outcome A

-- The database: what the scripts work on, and the versions of schema_migrations, the newest first;
-- none if there is no such table.
pub record Store (D : Type 0) : Type 0 where
  pub schema : D
  pub table : Option (List String)

-- `locked`: this session holds the advisory lock. `step` counts the calls of the database.
pub record World (D : Type 0) : Type 0 where
  pub store : Store D
  pub locked : Bool
  pub step : ℕ

-- PostgreSQL and the file system.
pub record Env (D : Type 0) : Type 0 where
  pub url_parses : Bool
  -- the n-th call of the database fails
  pub fails : ℕ → Bool
  -- the names that match *.up.sql in the directory; none is the error of filepath.Glob
  pub glob : Option (List String)
  pub read_file : String → Option String
  -- a script in a transaction; none is its error
  pub exec_script : String → D → Option D

abbrev pub Action : Type 0 → Type 0 → Type 0
Action D A = Env D → World D → Outcome A × World D

abbrev pub pure : {D A : Type 0} → A → Action D A
pure a e w = (done a, w)

abbrev fail : {D A : Type 0} → MigrateError → Action D A
fail x e w = (failed x, w)

infixl 5 ◌>>=◌ ◌>>◌
abbrev pub ◌>>=◌ : {D A B : Type 0} → Action D A → (A → Action D B) → Action D B
◌>>=◌ m f e w = let (r, w') = m e w in elim r [ done a ↦ f a e w' | failed x ↦ (failed x, w') ]

abbrev pub ◌>>◌ : {D B : Type 0} → Action D (Unit {0}) → Action D B → Action D B
m >> k = m >>= λ _. k

-- A call of the database: it may fail, and so may the statement on the store.
abbrev pub call : {D A : Type 0} → MigrateError → (Store D → Option (A × Store D)) → Action D A
call x f e w =
    if e.fails w.step then (failed x, record w { step = suc w.step }) else (elim (f w.store) [
      | none ↦ (failed x, record w { step = suc w.step })
      | some r ↦ (done r.0, record w { store = r.1; step = suc w.step })
    ])

abbrev pub versions : Option (List String) → List String
versions none = []
versions (some vs) = vs

abbrev pub is_recorded : {D : Type 0} → String → Store D → Bool
is_recorded v s = exists_row (λ (u : String). str_eq u v) (versions s.table)

-- `CREATE TABLE IF NOT EXISTS schema_migrations`
abbrev pub with_table : {D : Type 0} → Store D → Store D
with_table s = record s { table = some (versions s.table) }

abbrev on_table :
    {D A : Type 0}
    → Option (List String)
    → (List String → Option (A × Store D))
    → Option (A × Store D)
on_table none k = none
on_table (some vs) k = k vs

-- The SELECT EXISTS of a version: an error where there is no table.
abbrev select_applied : {D : Type 0} → String → Store D → Option (Bool × Store D)
select_applied v s = on_table s.table λ vs. some (is_recorded v s, s)

-- The INSERT of a version, the primary key of the table.
abbrev insert_version : {D : Type 0} → String → Store D → Option (Unit {0} × Store D)
insert_version v s =
    on_table s.table
      λ vs. if is_recorded v s then none else some (tt, record s { table = some (v ∷ vs) })

abbrev ran : {D : Type 0} → Store D → Option D → Option (Unit {0} × Store D)
ran s none = none
ran s (some d) = some (tt, record s { schema = d })

abbrev exec_body : {D : Type 0} → String → String → Action D (Unit {0})
exec_body v body e w = call (apply v) (λ s. ran s (e.exec_script body s.schema)) e w

abbrev rolled_back : {D A : Type 0} → Store D → Outcome A × World D → Outcome A × World D
rolled_back s (done a, w) = (done a, w)
rolled_back s (failed x, w) = (failed x, record w { store = s })

-- `defer tx.Rollback`: whatever fails up to the commit, the store is as before.
abbrev transaction : {D A : Type 0} → Action D A → Action D A
transaction m e w = rolled_back w.store (m e w)

abbrev ping : {D : Type 0} → MigrateError → Action D (Unit {0})
ping x = call x λ s. some (tt, s)

unfoldable pub apply_one : {D : Type 0} → String → String → Action D (Unit {0})
apply_one v body = transaction (do
  ping (begin v)
  exec_body v body
  call (record_version v) (insert_version v)
  ping (commit v))

abbrev pub read_body : {D : Type 0} → String → Option String → Action D String
read_body v none = fail (read v)
read_body v (some body) = pure body

abbrev unless_applied : {D : Type 0} → String → Bool → Action D (Unit {0})
unless_applied v true = pure tt
unless_applied v false = λ e w. (do body ← read_body v (e.read_file v); apply_one v body) e w

-- One round of the loop over the files.
unfoldable pub apply_file : {D : Type 0} → String → Action D (Unit {0})
unfolding apply_one
apply_file v = do applied ← call (check v) (select_applied v); unless_applied v applied

unfoldable pub apply_all : {D : Type 0} → List String → Action D (Unit {0})
apply_all [] = pure tt
apply_all (v ∷ vs) = apply_file v >> apply_all vs

abbrev before : String → String → Bool
before a b = elim (compare a b) [ Ordering.gt ↦ false | _ ↦ true ]

unfoldable pub insert_sorted : String → List String → List String
insert_sorted a [] = a ∷ []
insert_sorted a (b ∷ bs) =
    let rest = insert_sorted a bs in if before a b then a ∷ b ∷ bs else b ∷ rest

-- `sort.Strings`
unfoldable pub sort_strings : List String → List String
unfolding insert_sorted
sort_strings [] = []
sort_strings (a ∷ rest) = insert_sorted a (sort_strings rest)

abbrev or_fail : {D A : Type 0} → MigrateError → Option A → Action D A
or_fail x none = fail x
or_fail x (some a) = pure a

abbrev set_locked : {D : Type 0} → Bool → Action D (Unit {0})
set_locked b e w = (done tt, record w { locked = b })

-- The deferred unlock and the close of the connection, which ends its locks.
abbrev finally_unlock : {D A : Type 0} → Action D A → Action D A
finally_unlock m e w = let (r, w') = m e w in (r, record w' { locked = false })

abbrev under_lock : {D : Type 0} → Action D (Unit {0})
under_lock e w =
    (do
      call create_schema_migrations (λ s. some (tt, with_table s))
      files ← or_fail list_migrations e.glob
      apply_all (sort_strings files))
      e w

abbrev parse_url : {D : Type 0} → Action D (Unit {0})
parse_url e w = (if e.url_parses then done tt else failed parse_database_url, w)

unfoldable pub run : {D : Type 0} → Action D (Unit {0})
unfolding sort_strings
run = do
  parse_url
  ping connect
  ping acquire_migration_lock
  set_locked true
  finally_unlock under_lock
