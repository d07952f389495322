-- ===== src/Membership/OwnerOnly.antt =====
-- Who may do what to an owner: the guards of Remove, AssignRole and Invite, on the database that
-- the call starts from.
use multi_tenant_authorizati.Base.{
  ◌<◌, ◌≡◌, refl, subst, ◌⊎◌, inl, inr, true, false, not, ◌&&◌, ◌||◌, some,
}
use multi_tenant_authorizati.Apperrors.{ok}
use multi_tenant_authorizati.Db.Schema.{Uuid, RoleKind, Db, is_owner}
use multi_tenant_authorizati.Db.Go.{Env, World}
use multi_tenant_authorizati.Db.Driver.{Driver}
use multi_tenant_authorizati.Db.Ensures.{
  Ensures, Ensures-bind, Ensures-if, Ensures-assume, Ensures-begin_func, Ensures-const,
}
use multi_tenant_authorizati.Membership.Repository.{
  active_owners, member_kind, role_kind_in, remove_member, update_member_role,
}
use multi_tenant_authorizati.Membership.Service.{remove_tx, assign_role_tx, remove, assign_role}
use multi_tenant_authorizati.Membership.Guards.{
  IsOwner, require_other_owner-Ensures, require_owner_actor-Ensures, get_member_role_kind-Ensures,
  get_role_kind_by_id-Ensures,
}

-- The target is a member who is no owner, or the actor is an owner and the target not the last one.
abbrev pub MayRemove : Uuid → Uuid → Uuid → Db → Type 0
MayRemove org actor target d =
    (k : RoleKind) × (member_kind org target d ≡ some k)
    × ((is_owner k ≡ false) ⊎ (IsOwner org actor d × (1 < active_owners org d)))

-- The new role is a role of the organization and the target a member of it. A call that gives or
-- takes the role of an owner is an owner's, and does not demote the last one.
abbrev pub MayAssign : RoleKind → Uuid → Uuid → Uuid → Db → Type 0
MayAssign new org actor target d =
    (k : RoleKind) × (member_kind org target d ≡ some k)
    × (((is_owner new || is_owner k) ≡ false) ⊎ IsOwner org actor d)
    × (((is_owner k && not (is_owner new)) ≡ false) ⊎ (1 < active_owners org d))

may_remove :
    (org actor target : Uuid) (d₀ : Db) (k : RoleKind) (d : Db)
    → ((is_owner k ≡ true)
        × ((((d ≡ d₀) × (member_kind org target d ≡ some k)) × IsOwner org actor d)
            × (1 < active_owners org d)))
      ⊎ ((is_owner k ≡ false) × ((d ≡ d₀) × (member_kind org target d ≡ some k)))
    → MayRemove org actor target d₀
may_remove org actor target d₀ k d (inl q) =
    subst (MayRemove org actor target) q.1.0.0.0 (k, q.1.0.0.1, inr (q.1.0.1, q.1.1))
may_remove org actor target d₀ k d (inr q) =
    subst (MayRemove org actor target) q.1.0 (k, q.1.1, inl q.0)

-- What the second guard of AssignRole has established.
abbrev Passed : RoleKind → RoleKind → Uuid → Uuid → Uuid → Db → Db → Type 0
Passed new k org actor target d₀ d =
    ((is_owner new || is_owner k) ≡ true)
      × (((d ≡ d₀) × (member_kind org target d ≡ some k)) × IsOwner org actor d)
    ⊎ ((is_owner new || is_owner k) ≡ false) × ((d ≡ d₀) × (member_kind org target d ≡ some k))

may_assign :
    (new : RoleKind) (org actor target : Uuid) (d₀ : Db) (k : RoleKind) (d : Db)
    → ((is_owner k && not (is_owner new)) ≡ true)
        × (Passed new k org actor target d₀ d × (1 < active_owners org d))
      ⊎ ((is_owner k && not (is_owner new)) ≡ false) × Passed new k org actor target d₀ d
    → MayAssign new org actor target d₀
may_assign new org actor target d₀ k d (inl (_, (inl q, more))) =
    subst (MayAssign new org actor target) q.1.0.0 (k, q.1.0.1, inr q.1.1, inr more)
may_assign new org actor target d₀ k d (inl (_, (inr q, more))) =
    subst (MayAssign new org actor target) q.1.0 (k, q.1.1, inl q.0, inr more)
may_assign new org actor target d₀ k d (inr (keeps, inl q)) =
    subst (MayAssign new org actor target) q.1.0.0 (k, q.1.0.1, inr q.1.1, inl keeps)
may_assign new org actor target d₀ k d (inr (keeps, inr q)) =
    subst (MayAssign new org actor target) q.1.0 (k, q.1.1, inl q.0, inl keeps)

remove_tx-MayRemove :
    (org actor target : Uuid) (d₀ : Db)
    → Ensures (λ d. d ≡ d₀) (remove_tx org actor target) (λ _ _. MayRemove org actor target d₀)
unfolding remove_tx
remove_tx-MayRemove org actor target d₀ =
    Ensures-bind (get_member_role_kind-Ensures org target) λ k.
      Ensures-bind
        (Ensures-if (is_owner k) tt _ (
          Ensures-bind (require_owner_actor-Ensures org actor)
            λ _. require_other_owner-Ensures org))
        λ _.
          Ensures-assume (λ d q. may_remove org actor target d₀ k d q)
            (Ensures-const {m = remove_member org target})

assign_role_tx-MayAssign :
    (new : RoleKind) (org actor target r : Uuid) (d₀ : Db)
    → Ensures
        (λ d. d ≡ d₀)
        (assign_role_tx new org actor target r)
        (λ _ _. MayAssign new org actor target d₀)
unfolding assign_role_tx
assign_role_tx-MayAssign new org actor target r d₀ =
    Ensures-bind (get_member_role_kind-Ensures org target) λ k.
      Ensures-bind
        (Ensures-if (is_owner new || is_owner k) tt _ (require_owner_actor-Ensures org actor))
        λ _.
          Ensures-bind
            (Ensures-if (is_owner k && not (is_owner new)) tt _ (require_other_owner-Ensures org))
            λ _.
              Ensures-assume (λ d q. may_assign new org actor target d₀ k d q)
                (Ensures-const {m = update_member_role org target r})

module _ (pg : Driver) where
  -- A call of Remove that succeeds was allowed: the target was an active member, and if an owner,
  -- then the actor was an owner and there was another one.
  pub remove-MayRemove :
      (org actor target : Uuid) (e : Env) (w : World)
      → (remove pg org actor target e w).0 ≡ ok tt
      → MayRemove org actor target w.db
  unfolding remove
  remove-MayRemove org actor target e w h =
      (Ensures-begin_func pg (remove_tx-MayRemove org actor target w.db)).at e w tt refl h

  -- A call of AssignRole that succeeds was allowed: the new role is one of the organization, the
  -- target was an active member, only an owner gives or takes the role of an owner, and the last
  -- owner is not demoted.
  pub assign_role-MayAssign :
      (org actor target r : Uuid) (e : Env) (w : World)
      → (assign_role pg org actor target r e w).0 ≡ ok tt
      → (new : RoleKind) × (role_kind_in org r w.db ≡ some new)
        × MayAssign new org actor target w.db
  unfolding assign_role
  assign_role-MayAssign org actor target r e w h =
      (Ensures-bind {P = λ d. d ≡ w.db} {Q = λ _ _. Goal} (get_role_kind_by_id-Ensures org r)
          λ new. Ensures-begin_func pg (given new)).at
        e w tt refl h
    where
      Goal : Type 0
      Goal =
          (new : RoleKind) × (role_kind_in org r w.db ≡ some new)
          × MayAssign new org actor target w.db

      given :
          (new : RoleKind)
          → Ensures
              (λ d. (d ≡ w.db) × (role_kind_in org r d ≡ some new))
              (assign_role_tx new org actor target r)
              (λ _ _. Goal)
      given new = record {
        at = λ e' w' a p q. (
          new,
          subst (λ d. role_kind_in org r d ≡ some new) p.0 p.1,
          (assign_role_tx-MayAssign new org actor target r w.db).at e' w' a p.0 q,
        );
      }
