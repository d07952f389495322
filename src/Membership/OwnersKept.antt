-- ===== src/Membership/OwnersKept.antt =====
-- An update or a deletion behind the guards of the service leaves an owner where there was one.
use multi_tenant_authorizati.Base.{
  ◌<◌, ◌≡◌, refl, ◌⊎◌, inl, inr, true, false, none, some, List, [], ◌∷◌, ◌==◌, arith, Bool-cases,
  if◌then◌else◌,
}
use multi_tenant_authorizati.Db.Rows.{
  exists_row, first_row, count_rows, update_rows, delete_rows, Unique,
}
use multi_tenant_authorizati.Db.Schema.{Uuid, Role, RoleKind, Membership, is_owner}
use multi_tenant_authorizati.Membership.Repository.{
  is_member, is_active_owner, kind_among, role_kind, set_role, is_role_of,
}
use multi_tenant_authorizati.Membership.Valid.{same_role}
use multi_tenant_authorizati.Membership.Owners.{
  same_member, count-le-delete, count-delete_other, count-delete_ne, count-le-update,
  count-update_other, count-update_ne, count-update_promote,
}

-- The guard that Remove and Leave establish before they delete.
pub delete-KeepsOwner :
    (roles : List Role) (org user org' : Uuid) (k : RoleKind) (ms : List Membership)
    → Unique same_member ms
    → kind_among roles org user ms ≡ some k
    → (is_owner k ≡ false) ⊎ (1 < count_rows (is_active_owner roles org) ms)
    → 0 < count_rows (is_active_owner roles org') ms
    → 0 < count_rows (is_active_owner roles org') (delete_rows (is_member org user) ms)
delete-KeepsOwner roles org user org' k ms u e (inl o) h =
    omega (arith, count-delete_other roles org user org' k ms u e o)
delete-KeepsOwner roles org user org' k ms u e (inr many) h = elim (Bool-cases (org' == org)) [
  | inl same ↦ ground (arith, count-le-delete roles org user org' ms u)
  | inr other ↦ ground (arith, count-delete_ne roles org user org' ms)
]

-- The guard that AssignRole establishes before it updates.
pub update-KeepsOwner :
    (roles : List Role) (org user r org' : Uuid) (k new : RoleKind) (ms : List Membership)
    → Unique same_member ms
    → kind_among roles org user ms ≡ some k
    → role_kind roles r ≡ some new
    → (is_owner k ≡ false) ⊎ (is_owner new ≡ true) ⊎ (1 < count_rows (is_active_owner roles org) ms)
    → 0 < count_rows (is_active_owner roles org') ms
    → 0 < count_rows (is_active_owner roles org') (update_rows (is_member org user) (set_role r) ms)
update-KeepsOwner roles org user r org' k new ms u e n (inl o) h =
    omega (arith, count-update_other roles org user r org' k ms u e o)
update-KeepsOwner roles org user r org' k new ms u e n (inr (inl o)) h =
    omega (arith, count-update_promote roles org user r org' new ms n o)
update-KeepsOwner roles org user r org' k new ms u e n (inr (inr many)) h =
    elim (Bool-cases (org' == org)) [
      | inl same ↦ ground (arith, count-le-update roles org user r org' ms u)
      | inr other ↦ ground (arith, count-update_ne roles org user r org' ms)
    ]

-- `id` alone finds the role that `(id, organization_id)` finds, since identifiers are unique.
role_kind-absent :
    (r : Uuid) (x : Role) (roles : List Role)
    → exists_row (same_role x) roles ≡ false
    → x.id ≡ r
    → role_kind roles r ≡ none
role_kind-absent r x [] h e = refl
role_kind-absent r x (y ∷ roles) h e = ground (arith, role_kind-absent r x roles)

kind_in_absent :
    (org r : Uuid) (roles : List Role)
    → role_kind roles r ≡ none
    → first_row (λ (x : Role). if is_role_of org r x then some x.kind else none) roles ≡ none
kind_in_absent org r [] h = refl
kind_in_absent org r (x ∷ roles) h = ground (arith, kind_in_absent org r roles)

pub role_kind_of_in :
    (org r : Uuid) (k : RoleKind) (roles : List Role)
    → Unique same_role roles
    → first_row (λ (x : Role). if is_role_of org r x then some x.kind else none) roles ≡ some k
    → role_kind roles r ≡ some k
role_kind_of_in org r k [] u h = cc
role_kind_of_in org r k (x ∷ roles) u h = ground (
  arith,
  role_kind_of_in org r k roles u.1,
  role_kind-absent r x roles u.0,
  kind_in_absent org r roles,
)
