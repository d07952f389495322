-- ===== src/Listing.antt =====
-- The two logs that an organization can read, page by page (internal/audit/repository.go and
-- internal/authz/repository.go).
use multi_tenant_authorizati.Base.{
  ℕ, zero, suc, ◌≤◌, ◌≡◌, subst, inl, inr, Bool, true, ◌==◌, leb, List, [], ◌∷◌, arith, Bool-cases,
}
use multi_tenant_authorizati.Apperrors.{ok}
use multi_tenant_authorizati.Db.Rows.{select, count_rows, All, insert_by_desc, order_by_desc}
use multi_tenant_authorizati.Db.Schema.{Uuid, AuditLog, AuthzDecision, Db}
use multi_tenant_authorizati.Db.Go.{Env, World, query_rows}
use multi_tenant_authorizati.Authz.{take, drop, list_for_org}
use multi_tenant_authorizati.Trail.{list_audit_logs, is_logged_for}

module _ {A : Type 0} where
  -- Every row passes the test, and there are `n` at most.
  abbrev pub Within : ℕ → (A → Bool) → List A → Type 0
  Within n p xs = All (λ x. p x ≡ true) xs × (count_rows (λ _. true) xs ≤ n)

  module _ (p : A → Bool) where
    select-All : (xs : List A) → All (λ x. p x ≡ true) (select p xs)
    select-All [] = tt
    select-All (x ∷ xs) = elim (Bool-cases (p x)) [
      | inl hit ↦ rw hit (hit, select-All xs)
      | inr miss ↦ rw miss (select-All xs)
    ]

    insert-All :
        (key : A → ℕ) (a : A) (xs : List A)
        → p a ≡ true
        → All (λ x. p x ≡ true) xs
        → All (λ x. p x ≡ true) (insert_by_desc key a xs)
    insert-All key a [] h all = (h, tt)
    insert-All key a (x ∷ xs) h all = elim (Bool-cases (leb (key x) (key a))) [
      | inl le ↦ rw le (h, all)
      | inr gt ↦ rw gt (all.0, insert-All key a xs h all.1)
    ]

    order-All :
        (key : A → ℕ) (xs : List A)
        → All (λ x. p x ≡ true) xs
        → All (λ x. p x ≡ true) (order_by_desc key xs)
    order-All key [] all = tt
    order-All key (x ∷ xs) all =
        insert-All key x (order_by_desc key xs) all.0 (order-All key xs all.1)

    drop-All : (n : ℕ) (xs : List A) → All (λ x. p x ≡ true) xs → All (λ x. p x ≡ true) (drop n xs)
    drop-All zero xs all = all
    drop-All (suc n) [] all = tt
    drop-All (suc n) (x ∷ xs) all = drop-All n xs all.1

    take-Within : (n : ℕ) (xs : List A) → All (λ x. p x ≡ true) xs → Within n p (take n xs)
    take-Within zero xs all = (tt, omega arith)
    take-Within (suc n) [] all = (tt, omega arith)
    take-Within (suc n) (x ∷ xs) all =
        let q = take-Within n xs all.1 in ((all.0, q.0), omega (arith, q.1))

    abbrev page_of : (A → ℕ) → ℕ → ℕ → List A → List A
    page_of key limit offset xs = take limit (drop offset (order_by_desc key (select p xs)))

    page-Within :
        (key : A → ℕ) (limit offset : ℕ) (xs : List A)
        → Within limit p (page_of key limit offset xs)
    page-Within key limit offset xs =
        take-Within limit _ (drop-All offset _ (order-All key (select p xs) (select-All xs)))

query_rows_ok :
    {A : Type 0} (f : Db → List A) (xs : List A) (e : Env) (w : World)
    → (query_rows f e w).0 ≡ ok xs
    → f w.db ≡ xs
query_rows_ok f xs e w h = ground arith

-- A page of the decisions that an organization reads holds decisions of that organization only, and
-- as many as the limit at most.
list_for_org-Within :
    (org : Uuid) (limit offset : ℕ) (page : List AuthzDecision) (e : Env) (w : World)
    → (list_for_org org limit offset e w).0 ≡ ok page
    → Within limit (λ (a : AuthzDecision). a.organization_id == org) page
unfolding list_for_org
list_for_org-Within org limit offset page e w h =
    subst (Within limit (λ (a : AuthzDecision). a.organization_id == org))
      (query_rows_ok
        (λ d.
          page_of (λ (a : AuthzDecision). a.organization_id == org) (λ a. a.created_at) limit offset
            d.authz_decisions)
        page e w h)
      (page-Within (λ (a : AuthzDecision). a.organization_id == org) (λ a. a.created_at) limit
        offset w.db.authz_decisions)

-- A page of the audit log that an organization reads holds entries of that organization only, and
-- as many as the limit at most.
list_audit_logs-Within :
    (org : Uuid) (limit offset : ℕ) (page : List AuditLog) (e : Env) (w : World)
    → (list_audit_logs org limit offset e w).0 ≡ ok page
    → Within limit (is_logged_for org) page
unfolding list_audit_logs
list_audit_logs-Within org limit offset page e w h =
    subst (Within limit (is_logged_for org))
      (query_rows_ok
        (λ d. page_of (is_logged_for org) (λ a. a.created_at) limit offset d.audit_logs) page e w h)
      (page-Within (is_logged_for org) (λ a. a.created_at) limit offset w.db.audit_logs)
