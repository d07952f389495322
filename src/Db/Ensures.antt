-- ===== src/Db/Ensures.antt =====
-- What holds after an action that returns a value: one rule for each way to build an action.
use multi_tenant_authorizati.Base.{
  ◌<◌, ◌≡◌, refl, ◌⊎◌, inl, inr, Bool, true, false, Option, none, some, arith, ◌∙◌, if◌then◌else◌,
}
use multi_tenant_authorizati.Apperrors.{Error, Result, ok, err}
use multi_tenant_authorizati.Db.Rows.{All}
use multi_tenant_authorizati.Db.Schema.{Db}
use multi_tenant_authorizati.Db.Go.{
  Go, Env, World, pure, raise_if, ◌>>=◌, query_row, now, random_text, random_salt, from_option,
}
use multi_tenant_authorizati.Db.Driver.{Driver, Transacted-elim}

-- Begun where `P` holds, `m` ends where `Q` holds of its value, unless it returns an error.
pub record Ensures {A : Type 0} (P : Db → Type 0) (m : Go A) (Q : A → Db → Type 0) : Type 0 where
  pub at : (e : Env) (w : World) (a : A) → P w.db → (m e w).0 ≡ ok a → Q a (m e w).1.db

module _ {P : Db → Type 0} where
  pub Ensures-raise_if :
      (b : Bool) (x : Error) → Ensures P (raise_if b x) (λ _ d. P d × (b ≡ false))
  Ensures-raise_if b x = record { at = λ e w a p h. ground arith }

  pub Ensures-query_row :
      {A : Type 0} (x : Error) (f : Db → Option A)
      → Ensures P (query_row x f) (λ a d. P d × (f d ≡ some a))
  Ensures-query_row x f = record { at = λ e w a p h. ground arith }

  pub Ensures-if :
      (b : Bool) {A : Type 0} (a : A) (m : Go A) {Q : A → Db → Type 0}
      → Ensures P m Q
      → Ensures P (if b then m else pure a) (λ x d. ((b ≡ true) × Q x d) ⊎ ((b ≡ false) × P d))
  Ensures-if true a m k = record { at = λ e w x p h. inl (refl, k.at e w x p h) }
  Ensures-if false a m k = record { at = λ e w x p h. inr (refl, p) }

  pub Ensures-bind :
      {A B : Type 0} {m : Go A} {f : A → Go B} {R : A → Db → Type 0} {Q : B → Db → Type 0}
      → Ensures P m R
      → ((a : A) → Ensures (R a) (f a) Q)
      → Ensures P (m >>= f) Q
  Ensures-bind {A} {B} {m} {f} {R} {Q} km kf = record {
    at = λ e w b p h. go e (m e w) (λ a q. km.at e w a p q) b h;
  }
    where
      go :
          (e : Env) (r : Result A × World)
          → ((a : A) → r.0 ≡ ok a → R a r.1.db)
          → (b : B)
          → (elim r.0 as (λ _. Result B × World) [ ok a ↦ f a e r.1 | err x ↦ (err x, r.1) ]).0
            ≡ ok b
          → Q b
              (elim r.0 as (λ _. Result B × World) [ ok a ↦ f a e r.1 | err x ↦ (err x, r.1) ]).1.db
      go e (ok a, w) k b h = (kf a).at e w b (k a refl) h
      go e (err x, w) k b h = absurd (cc)

-- Change the conditions.
pub Ensures-weaken :
    {A : Type 0} {P : Db → Type 0} {m : Go A} {Q R : A → Db → Type 0}
    → ((a : A) (d : Db) → Q a d → R a d)
    → Ensures P m Q
    → Ensures P m R
Ensures-weaken f k = record { at = λ e w a p h. f a _ (k.at e w a p h) }

-- A transaction that returns an error has changed nothing; one that returns a value ends as its
-- function does.
pub Ensures-begin_func :
    {A : Type 0} {P : Db → Type 0} {m : Go A} {Q : A → Db → Type 0} (pg : Driver)
    → Ensures P m Q
    → Ensures P (pg.begin_func m) Q
Ensures-begin_func {A} {P} {m} {Q} pg k = record {
  at = λ e w a p h.
      Transacted-elim (λ r d. r ≡ ok a → Q a d) m e w (λ x q. absurd (cc))
        (λ n b done q. k.at e _ a p (done ∙ q)) (λ n b done q. absurd (cc)) (pg.transacts m e w) h;
}

pub Ensures-assume :
    {A : Type 0} {P R : Db → Type 0} {m : Go A} {Q : A → Db → Type 0}
    → ((d : Db) → P d → R d)
    → Ensures R m Q
    → Ensures P m Q
Ensures-assume f k = record { at = λ e w a p h. k.at e w a (f _ p) h }

-- The clock and the random source leave the database alone.
pub Ensures-now : {P : Db → Type 0} → Ensures P now (λ _ d. P d)
Ensures-now = record { at = λ e w a p h. p }

pub Ensures-random_text : {P : Db → Type 0} (x : Error) → Ensures P (random_text x) (λ _ d. P d)
Ensures-random_text x = record { at = λ e w a p h. p }

pub Ensures-from_option :
    {A : Type 0} {P : Db → Type 0} (x : Error) (o : Option A)
    → Ensures P (from_option x o) (λ a d. P d × (o ≡ some a))
Ensures-from_option x none = record { at = λ e w a p h. absurd (cc) }
Ensures-from_option x (some b) = record { at = λ e w a p h. ground arith }

-- The salt is a list of bytes.
pub Ensures-random_salt :
    {P : Db → Type 0} (x : Error) → Ensures P (random_salt x) (λ a d. P d × All (λ b. b < 256) a)
Ensures-random_salt x = record { at = λ e w a p h. (p, e.salt_bytes w.step a (ground arith)) }

pub Ensures-pure :
    {A : Type 0} {P : Db → Type 0} (a : A) → Ensures P (pure a) (λ b d. P d × (b ≡ a))
Ensures-pure a = record { at = λ e w b p h. ground arith }

-- A fact that does not speak of the database is kept.
pub Ensures-frame :
    {A : Type 0} {P : Db → Type 0} {m : Go A} {Q : A → Db → Type 0} {C : Type 0}
    → Ensures P m Q
    → Ensures (λ d. C × P d) m (λ a d. C × Q a d)
Ensures-frame k = record { at = λ e w a p h. (p.0, k.at e w a p.1 h) }

-- A fact that does not speak of the database holds after every action.
pub Ensures-const : {A C : Type 0} {m : Go A} → Ensures (λ _. C) m (λ _ _. C)
Ensures-const = record { at = λ e w a p h. p }

-- Where two facts are to be had of one action.
pub Ensures-both :
    {A : Type 0} {P : Db → Type 0} {m : Go A} {Q R : A → Db → Type 0}
    → Ensures P m Q
    → Ensures P m R
    → Ensures P m (λ a d. Q a d × R a d)
Ensures-both k l = record { at = λ e w a p h. (k.at e w a p h, l.at e w a p h) }
