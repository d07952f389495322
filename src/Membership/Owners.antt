-- ===== src/Membership/Owners.antt =====
-- How DELETE and UPDATE of one membership change the number of active owners.
use multi_tenant_authorizati.Base.{
  ℕ, ◌+◌, ◌≤◌, ◌≡◌, refl, ◌≢◌, inl, inr, Bool, true, false, none, some, List, [], ◌∷◌, arith,
  Bool-cases,
}
use multi_tenant_authorizati.Db.Rows.{exists_row, count_rows, update_rows, delete_rows, Unique}
use multi_tenant_authorizati.Db.Schema.{Uuid, Role, RoleKind, Membership, is_owner}
use multi_tenant_authorizati.Membership.Repository.{
  is_member, role_kind, is_active_owner, kind_among, set_role,
}

-- UNIQUE(user_id, organization_id)
abbrev pub same_member : Membership → Membership → Bool
same_member m = is_member m.organization_id m.user_id

module _ (roles : List Role) (org user : Uuid) where
  -- The active owners of an organization among some rows.
  abbrev owners : Uuid → List Membership → ℕ
  owners org' = count_rows (is_active_owner roles org')

  delete_absent :
      (ms : List Membership)
      → exists_row (is_member org user) ms ≡ false
      → delete_rows (is_member org user) ms ≡ ms
  delete_absent [] h = refl
  delete_absent (m ∷ ms) h = ground (arith, delete_absent ms)

  update_absent :
      (r : Uuid) (ms : List Membership)
      → exists_row (is_member org user) ms ≡ false
      → update_rows (is_member org user) (set_role r) ms ≡ ms
  update_absent r [] h = refl
  update_absent r (m ∷ ms) h = ground (arith, update_absent r ms)

  kind_absent :
      (ms : List Membership)
      → exists_row (is_member org user) ms ≡ false
      → kind_among roles org user ms ≡ none
  kind_absent [] h = refl
  kind_absent (m ∷ ms) h = ground (arith, kind_absent ms)

  -- One row at most is deleted.
  pub count-le-delete :
      (org' : Uuid) (ms : List Membership)
      → Unique same_member ms
      → owners org' ms ≤ owners org' (delete_rows (is_member org user) ms) + 1
  count-le-delete org' [] u = omega arith
  count-le-delete org' (m ∷ ms) u = elim (Bool-cases (is_member org user m)) [
    | inl hit ↦ ground (arith, delete_absent ms)
    | inr miss ↦ ground (arith, count-le-delete org' ms u.1)
  ]

  -- A member who is no owner does not count.
  pub count-delete_other :
      (org' : Uuid) (k : RoleKind) (ms : List Membership)
      → Unique same_member ms
      → kind_among roles org user ms ≡ some k
      → is_owner k ≡ false
      → owners org' ms ≤ owners org' (delete_rows (is_member org user) ms)
  count-delete_other org' k [] u e o = omega arith
  count-delete_other org' k (m ∷ ms) u e o = elim (Bool-cases (is_member org user m)) [
    | inl hit ↦ ground (arith, delete_absent ms, kind_absent ms)
    | inr miss ↦ ground (arith, count-delete_other org' k ms u.1)
  ]

  -- Nor does a member of another organization.
  pub count-delete_ne :
      (org' : Uuid) (ms : List Membership)
      → org' ≢ org
      → owners org' (delete_rows (is_member org user) ms) ≡ owners org' ms
  count-delete_ne org' [] h = refl
  count-delete_ne org' (m ∷ ms) h = ground (arith, count-delete_ne org' ms h)

  pub count-le-update :
      (r org' : Uuid) (ms : List Membership)
      → Unique same_member ms
      → owners org' ms ≤ owners org' (update_rows (is_member org user) (set_role r) ms) + 1
  count-le-update r org' [] u = omega arith
  count-le-update r org' (m ∷ ms) u = elim (Bool-cases (is_member org user m)) [
    | inl hit ↦ ground (arith, update_absent r ms)
    | inr miss ↦ ground (arith, count-le-update r org' ms u.1)
  ]

  pub count-update_other :
      (r org' : Uuid) (k : RoleKind) (ms : List Membership)
      → Unique same_member ms
      → kind_among roles org user ms ≡ some k
      → is_owner k ≡ false
      → owners org' ms ≤ owners org' (update_rows (is_member org user) (set_role r) ms)
  count-update_other r org' k [] u e o = omega arith
  count-update_other r org' k (m ∷ ms) u e o = elim (Bool-cases (is_member org user m)) [
    | inl hit ↦ ground (arith, update_absent r ms, kind_absent ms)
    | inr miss ↦ ground (arith, count-update_other r org' k ms u.1)
  ]

  pub count-update_ne :
      (r org' : Uuid) (ms : List Membership)
      → org' ≢ org
      → owners org' (update_rows (is_member org user) (set_role r) ms) ≡ owners org' ms
  count-update_ne r org' [] h = refl
  count-update_ne r org' (m ∷ ms) h = ground (arith, count-update_ne r org' ms h)

  -- A promotion to owner loses no owner.
  pub count-update_promote :
      (r org' : Uuid) (k : RoleKind) (ms : List Membership)
      → role_kind roles r ≡ some k
      → is_owner k ≡ true
      → owners org' ms ≤ owners org' (update_rows (is_member org user) (set_role r) ms)
  count-update_promote r org' k [] e o = omega arith
  count-update_promote r org' k (m ∷ ms) e o = ground (arith, count-update_promote r org' k ms e o)
