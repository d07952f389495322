-- ===== src/Db/Rows.antt =====
-- SQL over a table as the list of its rows: WHERE clauses are Boolean tests.
use multi_tenant_authorizati.Base.{
  ℕ, suc, ◌≡◌, Bool, true, false, Option, none, some, List, [], ◌∷◌, leb, if◌then◌else◌,
}

module _ {ℓ} {A : Type ℓ} where
  -- `SELECT … WHERE p`
  abbrev pub select : (A → Bool) → List A → List A
  select p [] = []
  select p (x ∷ xs) = if p x then x ∷ select p xs else select p xs

  -- `SELECT EXISTS (SELECT 1 … WHERE p)`
  abbrev pub exists_row : (A → Bool) → List A → Bool
  exists_row p [] = false
  exists_row p (x ∷ xs) = if p x then true else exists_row p xs

  -- `SELECT COUNT(*) … WHERE p`, also the rows that an UPDATE or a DELETE affects
  abbrev pub count_rows : (A → Bool) → List A → ℕ
  count_rows p [] = 0
  count_rows p (x ∷ xs) = if p x then suc (count_rows p xs) else count_rows p xs

  -- `UPDATE … SET f WHERE p`
  abbrev pub update_rows : (A → Bool) → (A → A) → List A → List A
  update_rows p f [] = []
  update_rows p f (x ∷ xs) = (if p x then f x else x) ∷ update_rows p f xs

  -- `DELETE … WHERE p`
  abbrev pub delete_rows : (A → Bool) → List A → List A
  delete_rows p [] = []
  delete_rows p (x ∷ xs) = if p x then delete_rows p xs else x ∷ delete_rows p xs

  -- The first row that QueryRow reads from `SELECT f … WHERE p`; `f` is none where a join finds
  -- no partner.
  abbrev pub first_row {κ} : {B : Type κ} → (A → Option B) → List A → Option B
  first_row f [] = none
  first_row f (x ∷ xs) = elim (f x) [ none ↦ first_row f xs | some b ↦ some b ]

  abbrev pub All {κ} : (A → Type κ) → List A → Type κ
  All P [] = Unit
  All P (x ∷ xs) = P x × All P xs

  -- UNIQUE over the columns that `same` compares.
  abbrev pub Unique : (A → A → Bool) → List A → Type 0
  Unique same [] = Unit
  Unique same (x ∷ xs) = (exists_row (same x) xs ≡ false) × Unique same xs

-- `WHERE column = $1`: NULL equals nothing.
abbrev pub is_value {ℓ} : {A : Type ℓ} → (A → Bool) → Option A → Bool
is_value p none = false
is_value p (some a) = p a

-- `ORDER BY key ASC`, by insertion.
module _ {ℓ} {A : Type ℓ} (key : A → ℕ) where
  abbrev insert_by : A → List A → List A
  insert_by a [] = a ∷ []
  insert_by a (x ∷ xs) = if leb (key a) (key x) then a ∷ x ∷ xs else x ∷ insert_by a xs

  abbrev pub order_by : List A → List A
  order_by [] = []
  order_by (x ∷ xs) = insert_by x (order_by xs)

-- `SELECT f … JOIN …`: the rows for which the join finds its partners.
abbrev pub join_rows {ℓ κ} : {A : Type ℓ} {B : Type κ} → (A → Option B) → List A → List B
join_rows f [] = []
join_rows f (x ∷ xs) = elim (f x) [ none ↦ join_rows f xs | some b ↦ b ∷ join_rows f xs ]

-- `ORDER BY key DESC`
abbrev pub insert_by_desc {ℓ} : {A : Type ℓ} → (A → ℕ) → A → List A → List A
insert_by_desc key a [] = a ∷ []
insert_by_desc key a (x ∷ xs) =
    if leb (key x) (key a) then a ∷ x ∷ xs else x ∷ insert_by_desc key a xs

abbrev pub order_by_desc {ℓ} : {A : Type ℓ} → (A → ℕ) → List A → List A
order_by_desc key [] = []
order_by_desc key (x ∷ xs) = insert_by_desc key x (order_by_desc key xs)
