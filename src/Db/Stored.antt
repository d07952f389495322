-- ===== src/Db/Stored.antt =====
-- What an EXISTS means: a row of the table passes the test.
use multi_tenant_authorizati.Base.{◌≡◌, inl, inr, Bool, true, List, [], ◌∷◌, arith, Bool-cases}
use multi_tenant_authorizati.Db.Rows.{exists_row}

pub data Stored {ℓ} {A : Type ℓ} (x : A) : List A → Type ℓ where
  first : {xs : List A} → Stored x (x ∷ xs)
  later : {y : A} {xs : List A} → Stored x xs → Stored x (y ∷ xs)

module _ {ℓ} {A : Type ℓ} (p : A → Bool) where
  pub found_row : (xs : List A) → exists_row p xs ≡ true → (x : A) × Stored x xs × (p x ≡ true)
  found_row [] h = absurd (cc)
  found_row (x ∷ xs) h = elim (Bool-cases (p x)) [
    | inl hit ↦ (x, first, hit)
    | inr miss ↦ let q = found_row xs (ground arith) in (q.0, later q.1, q.2)
  ]

  pub row_found : (x : A) (xs : List A) → Stored x xs → p x ≡ true → exists_row p xs ≡ true
  row_found x _ first h = ground arith
  row_found x _ (later {y} {xs} s) h = ground (arith, row_found x xs s h)
