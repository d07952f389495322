-- ===== src/Db/Keeps.antt =====
-- Invariants of actions: one rule for each way to build an action.
use multi_tenant_authorizati.Base.{
  Bool, true, false, Option, List, arith, if◌then◌else◌, none, some,
}
use multi_tenant_authorizati.Apperrors.{Error, Result, ok, err}
use multi_tenant_authorizati.Db.Schema.{Db}
use multi_tenant_authorizati.Db.Go.{
  Go, Env, World, pure, raise, raise_if, ◌>>=◌, now, query_row, query_rows, random_text,
  random_salt, from_option,
}
use multi_tenant_authorizati.Db.Driver.{Driver, Transacted-keeps}

-- `m` keeps `P`, whether it returns or fails.
pub record Keeps {A : Type 0} (P : Db → Type 0) (m : Go A) : Type 0 where
  pub at : (e : Env) (w : World) → P w.db → P (m e w).1.db

module _ {P : Db → Type 0} where
  pub Keeps-raise_if : (b : Bool) (x : Error) → Keeps P (raise_if b x)
  Keeps-raise_if b x = record { at = λ e w h. h }

  pub Keeps-now : Keeps P now
  Keeps-now = record { at = λ e w h. h }

  pub Keeps-random_text : (x : Error) → Keeps P (random_text x)
  Keeps-random_text x = record { at = λ e w h. h }

  pub Keeps-random_salt : (x : Error) → Keeps P (random_salt x)
  Keeps-random_salt x = record { at = λ e w h. h }

  module _ {A : Type 0} where
    pub Keeps-pure : (a : A) → Keeps P (pure a)
    Keeps-pure a = record { at = λ e w h. h }

    pub Keeps-raise : (x : Error) → Keeps P (raise {A = A} x)
    Keeps-raise x = record { at = λ e w h. h }

    pub Keeps-from_option : (x : Error) (o : Option A) → Keeps P (from_option x o)
    Keeps-from_option x none = record { at = λ e w h. h }
    Keeps-from_option x (some a) = record { at = λ e w h. h }

    pub Keeps-if : (b : Bool) (m n : Go A) → Keeps P m → Keeps P n → Keeps P (if b then m else n)
    Keeps-if true m n km kn = km
    Keeps-if false m n km kn = kn

    pub Keeps-query_row : (x : Error) (f : Db → Option A) → Keeps P (query_row x f)
    Keeps-query_row x f = record { at = λ e w h. ground arith }

    pub Keeps-query_rows : (f : Db → List A) → Keeps P (query_rows f)
    Keeps-query_rows f = record { at = λ e w h. ground arith }

    pub Keeps-begin_func : (pg : Driver) (m : Go A) → Keeps P m → Keeps P (pg.begin_func m)
    Keeps-begin_func pg m k = record {
      at = λ e w h. Transacted-keeps (λ d. P d) m e w h (λ n a _. k.at e _ h) (pg.transacts m e w);
    }

module _ {P : Db → Type 0} {A B : Type 0} where
  pub Keeps-bind :
      (m : Go A) (f : A → Go B) → Keeps P m → ((a : A) → Keeps P (f a)) → Keeps P (m >>= f)
  Keeps-bind m f km kf = record { at = λ e w h. go (m e w) e (km.at e w h) }
    where
      go :
          (r : Result A × World) (e : Env)
          → P r.1.db
          → P (elim r.0 as (λ _. Result B × World) [ ok a ↦ f a e r.1 | err x ↦ (err x, r.1) ]).1.db
      go (ok a, w) e h = (kf a).at e w h
      go (err x, w) e h = h

pub ruleset keeps_rules = (
  Keeps-pure, Keeps-raise, Keeps-raise_if, Keeps-now, Keeps-random_text, Keeps-random_salt,
  Keeps-from_option, Keeps-if, Keeps-query_row, Keeps-query_rows, Keeps-begin_func, Keeps-bind,
)
