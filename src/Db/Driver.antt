-- ===== src/Db/Driver.antt =====
-- `pgx.BeginFunc` of github.com/jackc/pgx/v5, which the services call and this repository does not
-- implement: it begins a transaction, runs the function in it, commits if the function returns no
-- error, and rolls back otherwise. A COMMIT that reports an error may have taken effect or not.
use multi_tenant_authorizati.Base.{ℕ, ◌≡◌}
use multi_tenant_authorizati.Apperrors.{Error, external, Result, ok, err}
use multi_tenant_authorizati.Db.Schema.{Db}
use multi_tenant_authorizati.Db.Go.{Env, World, Go}

-- What a transaction over `m`, begun at the world `w`, has come to.
pub data Transacted {A : Type 0} (m : Go A) (e : Env) (w : World) (r : Result A × World)
    : Type 0 where
  -- BEGIN failed, or COMMIT did and took no effect
  aborted : (n : ℕ) → r ≡ (err external, record { db = w.db; step = n }) → Transacted m e w r
  rolled_back :
      (k n : ℕ) (x : Error)
      → (m e (record { db = w.db; step = k })).0 ≡ err x
      → r ≡ (err x, record { db = w.db; step = n })
      → Transacted m e w r
  committed :
      (k n : ℕ) (a : A)
      → (m e (record { db = w.db; step = k })).0 ≡ ok a
      → r ≡ (ok a, record { db = (m e (record { db = w.db; step = k })).1.db; step = n })
      → Transacted m e w r
  -- COMMIT took effect, and its acknowledgement was lost
  unacknowledged :
      (k n : ℕ) (a : A)
      → (m e (record { db = w.db; step = k })).0 ≡ ok a
      → r ≡ (err external, record { db = (m e (record { db = w.db; step = k })).1.db; step = n })
      → Transacted m e w r

pub record Driver : Type 1 where
  pub begin_func : {A : Type 0} → Go A → Go A
  pub transacts :
      {A : Type 0} (m : Go A) (e : Env) (w : World) → Transacted m e w (begin_func m e w)

-- To prove `Q` of a transaction: `Q` of every error at the old database, and, where the function
-- returns a value, of the success and of a lost acknowledgement at the new one.
pub Transacted-elim :
    {A : Type 0} (Q : Result A → Db → Type 0) (m : Go A) (e : Env) (w : World)
    {r : Result A × World}
    → ((x : Error) → Q (err x) w.db)
    → ((k : ℕ) (a : A)
        → (m e (record { db = w.db; step = k })).0 ≡ ok a
        → Q (ok a) (m e (record { db = w.db; step = k })).1.db)
    → ((k : ℕ) (a : A)
        → (m e (record { db = w.db; step = k })).0 ≡ ok a
        → Q (err external) (m e (record { db = w.db; step = k })).1.db)
    → Transacted m e w r
    → Q r.0 r.1.db
Transacted-elim Q m e w failure success lost (aborted n p) = rw p (failure external)
Transacted-elim Q m e w failure success lost (rolled_back k n x q p) = rw p (failure x)
Transacted-elim Q m e w failure success lost (committed k n a q p) = rw p (success k a q)
Transacted-elim Q m e w failure success lost (unacknowledged k n a q p) = rw p (lost k a q)

-- The same for a condition on the database alone.
pub Transacted-keeps :
    {A : Type 0} (P : Db → Type 0) (m : Go A) (e : Env) (w : World) {r : Result A × World}
    → P w.db
    → ((k : ℕ) (a : A)
        → (m e (record { db = w.db; step = k })).0 ≡ ok a
        → P (m e (record { db = w.db; step = k })).1.db)
    → Transacted m e w r
    → P r.1.db
Transacted-keeps P m e w old new = Transacted-elim (λ _ d. P d) m e w (λ _. old) new new
