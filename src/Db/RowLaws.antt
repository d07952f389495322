-- ===== src/Db/RowLaws.antt =====
-- UNIQUE, CHECK and EXISTS under the statements that delete and update rows.
use multi_tenant_authorizati.Base.{
  ◌<◌, ◌≡◌, refl, ◌∙◌, inl, inr, Bool, true, false, List, [], ◌∷◌, arith, Bool-cases, ◌≤◌,
}
use mathlib.Core.Path.{fun_ext}
use multi_tenant_authorizati.Db.Rows.{exists_row, count_rows, update_rows, delete_rows, Unique, All}

module _ {ℓ} {A : Type ℓ} (p : A → Bool) where
  exists-delete :
      (q : A → Bool) (xs : List A)
      → exists_row q xs ≡ false
      → exists_row q (delete_rows p xs) ≡ false
  exists-delete q [] h = refl
  exists-delete q (x ∷ xs) h = ground (arith, exists-delete q xs)

  pub delete-Unique :
      (same : A → A → Bool) (xs : List A) → Unique same xs → Unique same (delete_rows p xs)
  delete-Unique same [] u = tt
  delete-Unique same (x ∷ xs) u = elim (Bool-cases (p x)) [
    | inl hit ↦ rw hit (delete-Unique same xs u.1)
    | inr miss ↦ rw miss (exists-delete (same x) xs u.0, delete-Unique same xs u.1)
  ]

  pub delete-All {κ} : (P : A → Type κ) (xs : List A) → All P xs → All P (delete_rows p xs)
  delete-All P [] h = tt
  delete-All P (x ∷ xs) h = elim (Bool-cases (p x)) [
    | inl hit ↦ rw hit (delete-All P xs h.1)
    | inr miss ↦ rw miss (h.0, delete-All P xs h.1)
  ]

  pub update-All {κ} :
      (P : A → Type κ) (f : A → A)
      → ((x : A) → p x ≡ true → P x → P (f x))
      → (xs : List A) → All P xs
      → All P (update_rows p f xs)
  update-All P f keep [] h = tt
  update-All P f keep (x ∷ xs) h = elim (Bool-cases (p x)) [
    | inl hit ↦ rw hit (keep x hit h.0, update-All P f keep xs h.1)
    | inr miss ↦ rw miss (h.0, update-All P f keep xs h.1)
  ]

-- An update that no test sees.
module _ {ℓ} {A : Type ℓ} (p : A → Bool) (f : A → A) where
  pub exists-update :
      (q : A → Bool)
      → ((x : A) → q (f x) ≡ q x)
      → (xs : List A) → exists_row q (update_rows p f xs) ≡ exists_row q xs
  exists-update q same [] = refl
  exists-update q same (x ∷ xs) = ground (arith, same x, exists-update q same xs)

  pub update-Unique :
      (r : A → A → Bool)
      → ((x y : A) → r (f x) y ≡ r x y)
      → ((x y : A) → r x (f y) ≡ r x y)
      → (xs : List A) → Unique r xs
      → Unique r (update_rows p f xs)
  update-Unique r left right [] u = tt
  update-Unique r left right (x ∷ xs) u = elim (Bool-cases (p x)) [
    | inl hit ↦
        rw hit
          (exists-left (exists-update (r x) (right x) xs ∙ u.0), update-Unique r left right xs u.1)
    | inr miss ↦ rw miss (exists-update (r x) (right x) xs ∙ u.0, update-Unique r left right xs u.1)
  ]
    where
      exists-left :
          exists_row (r x) (update_rows p f xs) ≡ false
          → exists_row (r (f x)) (update_rows p f xs) ≡ false
      exists-left h = rw (fun_ext (left x)) h

-- After an update of the rows that pass a test none passes it, if the update makes it fail.
pub exists-update_self {ℓ} :
    {A : Type ℓ} (p : A → Bool) (f : A → A)
    → ((x : A) → p (f x) ≡ false)
    → (xs : List A) → exists_row p (update_rows p f xs) ≡ false
exists-update_self p f off [] = refl
exists-update_self p f off (x ∷ xs) = ground (arith, off x, exists-update_self p f off xs)

module _ {ℓ} {A : Type ℓ} where
  -- EXISTS and COUNT agree.
  exists_of_count : (p : A → Bool) (xs : List A) → 0 < count_rows p xs → exists_row p xs ≡ true
  exists_of_count p [] h = absurd (omega arith)
  exists_of_count p (x ∷ xs) h = ground (arith, exists_of_count p xs)

  pub count_of_absent : (p : A → Bool) (xs : List A) → exists_row p xs ≡ false → count_rows p xs ≡ 0
  count_of_absent p [] h = refl
  count_of_absent p (x ∷ xs) h = ground (arith, count_of_absent p xs)

-- A test that no changed row passes, before or after.
module _ {ℓ} {A : Type ℓ} (p q : A → Bool) where
  pub exists-delete_apart :
      ((x : A) → p x ≡ true → q x ≡ false)
      → (xs : List A) → exists_row q (delete_rows p xs) ≡ exists_row q xs
  exists-delete_apart apart [] = refl
  exists-delete_apart apart (x ∷ xs) = elim (Bool-cases (p x)) [
    | inl hit ↦ ground (arith, apart x hit, exists-delete_apart apart xs)
    | inr miss ↦ ground (arith, exists-delete_apart apart xs)
  ]

  pub exists-update_apart :
      (f : A → A)
      → ((x : A) → p x ≡ true → (q x ≡ false) × (q (f x) ≡ false))
      → (xs : List A) → exists_row q (update_rows p f xs) ≡ exists_row q xs
  exists-update_apart f apart [] = refl
  exists-update_apart f apart (x ∷ xs) = elim (Bool-cases (p x)) [
    | inl hit ↦ ground (arith, (apart x hit).0, (apart x hit).1, exists-update_apart f apart xs)
    | inr miss ↦ ground (arith, exists-update_apart f apart xs)
  ]

module _ {ℓ} {A : Type ℓ} where
  pub map-All {κ κ'} :
      {P : A → Type κ} {Q : A → Type κ'}
      → ((x : A) → P x → Q x)
      → (xs : List A) → All P xs
      → All Q xs
  map-All f [] h = tt
  map-All f (x ∷ xs) h = (f x h.0, map-All f xs h.1)

  -- A weaker test counts no fewer rows.
  pub count-le-count :
      (p q : A → Bool)
      → ((x : A) → p x ≡ true → q x ≡ true)
      → (xs : List A) → count_rows p xs ≤ count_rows q xs
  count-le-count p q f [] = omega arith
  count-le-count p q f (x ∷ xs) = elim (Bool-cases (p x)) [
    | inl hit ↦ ground (arith, f x hit, count-le-count p q f xs)
    | inr miss ↦ ground (arith, count-le-count p q f xs)
  ]
