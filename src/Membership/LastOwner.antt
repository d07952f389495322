-- ===== src/Membership/LastOwner.antt =====
-- The last-owner rule: no operation of the service takes the last active owner from an
-- organization.
use multi_tenant_authorizati.Base.{
  suc, ◌<◌, ◌≡◌, ◌⊎◌, inl, inr, true, false, ◌&&◌, ◌||◌, not, some, arith, Option-cases,
}
use multi_tenant_authorizati.Apperrors.{organization_not_found}
use multi_tenant_authorizati.Db.Schema.{Uuid, Db, RoleKind, is_owner, org_active}
use multi_tenant_authorizati.Db.Go.{Env, World}
use multi_tenant_authorizati.Db.Driver.{Driver, Transacted-keeps}
use multi_tenant_authorizati.Db.Ensures.{
  Ensures, Ensures-bind, Ensures-if, Ensures-raise_if, Ensures-assume,
}
use multi_tenant_authorizati.Membership.Repository.{
  active_owners, member_kind, role_kind, role_kind_in, remove_member, update_member_role,
  get_role_kind_by_id,
}
use multi_tenant_authorizati.Membership.Service.{
  remove_tx, leave_tx, assign_role_tx, remove, leave, assign_role,
}
use multi_tenant_authorizati.Membership.Valid.{IsValid}
use multi_tenant_authorizati.Membership.OwnersKept.{
  delete-KeepsOwner, update-KeepsOwner, role_kind_of_in,
}
use multi_tenant_authorizati.Membership.Guards.{
  require_other_owner-Ensures, require_owner_actor-Ensures, get_member_role_kind-Ensures,
  organization_status-Ensures,
}

-- What the transactions start from.
abbrev Owned : Uuid → Db → Type 0
Owned org d = IsValid d × (0 < active_owners org d)

-- The last statement of Remove and Leave, after their reads and guards.
remove_member-Owned :
    (org user org' : Uuid) (k : RoleKind)
    → Ensures
        (λ d.
          Owned org' d
          × (member_kind org user d ≡ some k)
          × ((is_owner k ≡ false) ⊎ (1 < active_owners org d)))
        (remove_member org user)
        (λ _ d. 0 < active_owners org' d)
unfolding remove_member
remove_member-Owned org user org' k = record {
  at = λ e w a p h. ground (
    arith,
    delete-KeepsOwner w.db.roles org user org' k w.db.memberships p.0.0.unique_members p.1 p.2
        p.0.1,
  );
}

remove_tx-Ensures :
    (org actor target org' : Uuid)
    → Ensures (Owned org') (remove_tx org actor target) (λ _ d. 0 < active_owners org' d)
unfolding remove_tx
remove_tx-Ensures org actor target org' =
    Ensures-bind (get_member_role_kind-Ensures org target) λ k.
      Ensures-bind
        (Ensures-if (is_owner k) tt _ (
          Ensures-bind (require_owner_actor-Ensures org actor)
            λ _. require_other_owner-Ensures org))
        λ _. Ensures-assume (λ d q. ground arith) (remove_member-Owned org target org' k)

leave_tx-Ensures :
    (org user org' : Uuid)
    → Ensures (Owned org') (leave_tx org user) (λ _ d. 0 < active_owners org' d)
unfolding leave_tx
leave_tx-Ensures org user org' = Ensures-bind (get_member_role_kind-Ensures org user) λ k.
    Ensures-bind (organization_status-Ensures org) λ s.
      Ensures-bind (Ensures-raise_if (not (org_active s)) organization_not_found) λ _.
        Ensures-bind (Ensures-if (is_owner k) tt _ (require_other_owner-Ensures org))
          λ _. Ensures-assume (λ d q. ground arith) (remove_member-Owned org user org' k)

update_member_role-Owned :
    (org user r org' : Uuid) (k new : RoleKind)
    → Ensures
        (λ d.
          Owned org' d
          × (role_kind d.roles r ≡ some new)
          × (member_kind org user d ≡ some k)
          × ((is_owner k ≡ false) ⊎ (is_owner new ≡ true) ⊎ (1 < active_owners org d)))
        (update_member_role org user r)
        (λ _ d. 0 < active_owners org' d)
unfolding update_member_role
update_member_role-Owned org user r org' k new = record {
  at = λ e w a p h. ground (
    arith,
    update-KeepsOwner w.db.roles org user r org' k new w.db.memberships p.0.0.unique_members p.2 p.1
        p.3 p.0.1,
  );
}

assign_role_tx-Ensures :
    (new : RoleKind) (org actor target r org' : Uuid)
    → Ensures
        (λ d. Owned org' d × (role_kind d.roles r ≡ some new))
        (assign_role_tx new org actor target r)
        (λ _ d. 0 < active_owners org' d)
unfolding assign_role_tx
assign_role_tx-Ensures new org actor target r org' =
    Ensures-bind (get_member_role_kind-Ensures org target) λ k.
      Ensures-bind
        (Ensures-if (is_owner new || is_owner k) tt _ (require_owner_actor-Ensures org actor))
        λ _.
          Ensures-bind
            (Ensures-if (is_owner k && not (is_owner new)) tt _ (require_other_owner-Ensures org))
            λ _.
              Ensures-assume (λ d q. ground arith)
                (update_member_role-Owned org target r org' k new)

module _ (pg : Driver) where
  -- Remove never takes the last active owner from an organization, its own or another: in a valid
  -- database, however the call ends and whatever fails on the way.
  pub remove-KeepsOwner :
      (org actor target org' : Uuid) (e : Env) (w : World)
      → IsValid w.db
      → 0 < active_owners org' w.db
      → 0 < active_owners org' (remove pg org actor target e w).1.db
  unfolding remove
  remove-KeepsOwner org actor target org' e w v h =
      Transacted-keeps (λ d. 0 < active_owners org' d) (remove_tx org actor target) e w h
        (λ k a done. (remove_tx-Ensures org actor target org').at e _ a (v, h) done)
        (pg.transacts _ e w)

  -- Leave never takes the last active owner from an organization, on the same terms.
  pub leave-KeepsOwner :
      (org user org' : Uuid) (e : Env) (w : World)
      → IsValid w.db
      → 0 < active_owners org' w.db
      → 0 < active_owners org' (leave pg org user e w).1.db
  unfolding leave
  leave-KeepsOwner org user org' e w v h =
      Transacted-keeps (λ d. 0 < active_owners org' d) (leave_tx org user) e w h
        (λ k a done. (leave_tx-Ensures org user org').at e _ a (v, h) done) (pg.transacts _ e w)

  assign_in_tx :
      (new : RoleKind) (org actor target r org' : Uuid) (e : Env) (w : World)
      → IsValid w.db
      → role_kind w.db.roles r ≡ some new
      → 0 < active_owners org' w.db
      → 0 < active_owners org' (pg.begin_func (assign_role_tx new org actor target r) e w).1.db
  assign_in_tx new org actor target r org' e w v known h =
      Transacted-keeps (λ d. 0 < active_owners org' d) (assign_role_tx new org actor target r) e w h
        (λ k a done.
          (assign_role_tx-Ensures new org actor target r org').at e _ a ((v, h), known) done)
        (pg.transacts _ e w)

  -- AssignRole never demotes the last active owner of an organization, on the same terms.
  pub assign_role-KeepsOwner :
      (org actor target r org' : Uuid) (e : Env) (w : World)
      → IsValid w.db
      → 0 < active_owners org' w.db
      → 0 < active_owners org' (assign_role pg org actor target r e w).1.db
  unfolding assign_role get_role_kind_by_id
  assign_role-KeepsOwner org actor target r org' e w v h =
      elim (Option-cases (role_kind_in org r w.db)) [
        | inl missing ↦ ground arith
        | inr (new, found) ↦ ground (
          arith,
          assign_in_tx new org actor target r org' e (record { db = w.db; step = suc w.step }) v
              (role_kind_of_in org r new w.db.roles v.unique_roles found) h,
        )
      ]
