-- ===== src/Db/Atomic.antt =====
-- Actions that change nothing when they fail, but for what is said: one rule for each way to build
-- an action.
use multi_tenant_authorizati.Base.{
  ℕ, ◌⊎◌, inl, inr, subst, ◌≡◌, refl, ◌∙◌, ◌≢◌, Bool, true, false, Option, arith, if◌then◌else◌,
  none, some,
}
use multi_tenant_authorizati.Apperrors.{Error, external, Result, ok, err}
use multi_tenant_authorizati.Db.Schema.{Db}
use multi_tenant_authorizati.Db.Go.{
  Go, Env, World, pure, raise_if, ◌>>=◌, now, query_row, random_text, random_salt, from_option,
}
use multi_tenant_authorizati.Db.Driver.{Driver, Transacted-elim}

-- `m` never changes the database.
pub record Reads {A : Type 0} (m : Go A) : Type 0 where
  pub at : (e : Env) (w : World) → (m e w).1.db ≡ w.db

-- What an error may leave behind, at the database where the action began.
abbrev pub Aftermath : Type 1
Aftermath = Error → Env → Db → Db → Type 0

-- `m` leaves the database as it was, or as `X` says, if it returns an error.
pub record Atomic (X : Aftermath) {A : Type 0} (m : Go A) : Type 0 where
  pub at :
      (e : Env) (w : World) (x : Error)
      → (m e w).0 ≡ err x
      → ((m e w).1.db ≡ w.db) ⊎ X x e w.db (m e w).1.db

-- A run of `m` from `d` returns a value and ends at `d'`.
abbrev pub Completes : {A : Type 0} → Go A → Env → Db → Db → Type 0
Completes {A} m e d d' =
    (k : ℕ) × (a : A) × ((m e (record { db = d; step = k })).0 ≡ ok a)
    × ((m e (record { db = d; step = k })).1.db ≡ d')

-- `m` never fails.
pub record Total {A : Type 0} (m : Go A) : Type 0 where
  pub at : (e : Env) (w : World) (x : Error) → (m e w).0 ≢ err x

pub Reads-raise_if : (b : Bool) (x : Error) → Reads (raise_if b x)
Reads-raise_if b x = record { at = λ e w. refl }

pub Reads-now : Reads now
Reads-now = record { at = λ e w. refl }

pub Reads-random_text : (x : Error) → Reads (random_text x)
Reads-random_text x = record { at = λ e w. refl }

pub Reads-random_salt : (x : Error) → Reads (random_salt x)
Reads-random_salt x = record { at = λ e w. refl }

pub Reads-from_option : {A : Type 0} (x : Error) (o : Option A) → Reads (from_option x o)
Reads-from_option x none = record { at = λ e w. refl }
Reads-from_option x (some a) = record { at = λ e w. refl }

module _ {A : Type 0} where
  pub Reads-pure : (a : A) → Reads (pure a)
  Reads-pure a = record { at = λ e w. refl }

  pub Reads-if : (b : Bool) (m n : Go A) → Reads m → Reads n → Reads (if b then m else n)
  Reads-if true m n km kn = km
  Reads-if false m n km kn = kn

  pub Reads-query_row : (x : Error) (f : Db → Option A) → Reads (query_row x f)
  Reads-query_row x f = record { at = λ e w. ground arith }

  pub Atomic-Reads : {X : Aftermath} (m : Go A) → Reads m → Atomic X m
  Atomic-Reads m k = record { at = λ e w x h. inl (k.at e w) }

  -- A transaction does all or nothing: that it reports an error and has done all is the lost
  -- acknowledgement of its COMMIT.
  pub Atomic-begin_func :
      {X : Aftermath} (pg : Driver) (m : Go A)
      → ((e : Env) (d d' : Db) → Completes m e d d' → X external e d d')
      → Atomic X (pg.begin_func m)
  Atomic-begin_func {X} pg m all = record {
    at = λ e w x h.
        Transacted-elim (λ r d. r ≡ err x → (d ≡ w.db) ⊎ X x e w.db d) m e w (λ _ _. inl refl)
          (λ k a _ q. absurd (cc))
          (λ k a done q.
            let is : external ≡ x = ground arith in
            inr (
              subst (λ y. X y e w.db (m e (record { db = w.db; step = k })).1.db) is
                (all e w.db _ (k, a, done, refl))))
          (pg.transacts m e w) h;
  }

module _ {A B : Type 0} where
  pub Reads-bind : (m : Go A) (f : A → Go B) → Reads m → ((a : A) → Reads (f a)) → Reads (m >>= f)
  Reads-bind m f km kf = record { at = λ e w. go e (m e w) ∙ km.at e w }
    where
      go :
          (e : Env) (r : Result A × World)
          → (elim r.0 as (λ _. Result B × World) [ ok a ↦ f a e r.1 | err x ↦ (err x, r.1) ]).1.db
            ≡ r.1.db
      go e (ok a, w) = (kf a).at e w
      go e (err x, w) = refl

  -- Reads first, and then something atomic.
  pub Atomic-bind :
      {X : Aftermath} (m : Go A) (f : A → Go B)
      → Reads m
      → ((a : A) → Atomic X (f a))
      → Atomic X (m >>= f)
  Atomic-bind {X} m f km kf = record { at = λ e w x h. go e (m e w) x w.db (km.at e w) h }
    where
      go :
          (e : Env) (r : Result A × World) (x : Error) (d : Db)
          → r.1.db ≡ d
          → (elim r.0 as (λ _. Result B × World) [ ok a ↦ f a e r.1 | err x ↦ (err x, r.1) ]).0
            ≡ err x
          → let after =
              (elim r.0 as (λ _. Result B × World) [
                | ok a ↦ f a e r.1
                | err x ↦ (err x, r.1)
              ]).1.db in
            (after ≡ d) ⊎ X x e d after
      go e (ok a, w) x d same h =
          subst (λ y. ((f a e w).1.db ≡ y) ⊎ X x e y (f a e w).1.db) same ((kf a).at e w x h)
      go e (err y, w) x d same h = inl same

  -- Something atomic first, and then what cannot fail.
  pub Atomic-then :
      {X : Aftermath} (m : Go A) (f : A → Go B)
      → Atomic X m
      → ((a : A) → Total (f a))
      → Atomic X (m >>= f)
  Atomic-then {X} m f km kf = record {
    at = λ e w x h. go e (m e w) x w.db (λ y q. km.at e w y q) h;
  }
    where
      go :
          (e : Env) (r : Result A × World) (x : Error) (d : Db)
          → ((y : Error) → r.0 ≡ err y → (r.1.db ≡ d) ⊎ X y e d r.1.db)
          → (elim r.0 as (λ _. Result B × World) [ ok a ↦ f a e r.1 | err x ↦ (err x, r.1) ]).0
            ≡ err x
          → let after =
              (elim r.0 as (λ _. Result B × World) [
                | ok a ↦ f a e r.1
                | err x ↦ (err x, r.1)
              ]).1.db in
            (after ≡ d) ⊎ X x e d after
      go e (ok a, w) x d k h = absurd ((kf a).at e w x h)
      go e (err y, w) x d k h =
          let same : y ≡ x = ground arith in subst (λ z. (w.db ≡ d) ⊎ X z e d w.db) same (k y refl)

pub Total-pure : {A : Type 0} (a : A) → Total (pure a)
Total-pure a = record { at = λ e w x h. cc }

module _ {A B : Type 0} where
  pub Total-bind : (m : Go A) (f : A → Go B) → Total m → ((a : A) → Total (f a)) → Total (m >>= f)
  Total-bind m f km kf = record { at = λ e w x h. go e (m e w) (km.at e w) x h }
    where
      go :
          (e : Env) (r : Result A × World)
          → ((y : Error) → r.0 ≢ err y)
          → (x : Error)
          → (elim r.0 as (λ _. Result B × World) [ ok a ↦ f a e r.1 | err x ↦ (err x, r.1) ]).0
            ≢ err x
      go e (ok a, w) k x h = (kf a).at e w x h
      go e (err y, w) k x h = k y refl

  pub Atomic-map :
      {X : Aftermath} (m : Go A) (g : A → B) → Atomic X m → Atomic X (m >>= λ a. pure (g a))
  Atomic-map m g k = Atomic-then m (λ a. pure (g a)) k (λ a. Total-pure (g a))

pub ruleset reads_rules = (
  Reads-raise_if, Reads-now, Reads-random_text, Reads-random_salt, Reads-pure, Reads-if,
  Reads-query_row, Reads-bind,
)
