-- ===== src/Membership/Valid.antt =====
-- What the schema promises of memberships and invitations, kept by each statement that writes them.
use multi_tenant_authorizati.Base.{
  ◌≡◌, refl, Bool, true, false, ◌&&◌, List, [], ◌∷◌, arith, ◌==◌, if◌then◌else◌, Bool-cases, inl,
  inr,
}
use multi_tenant_authorizati.Db.Rows.{exists_row, update_rows, Unique, All}
use multi_tenant_authorizati.Db.RowLaws.{update-All}
use multi_tenant_authorizati.Db.Schema.{
  Uuid, Role, Membership, Invitation, InviteStatus, Db, invite_active,
}
use multi_tenant_authorizati.Membership.Repository.{
  is_member, role_in_org, set_role, has_active_token,
}
use multi_tenant_authorizati.Membership.Owners.{same_member}

-- PRIMARY KEY of roles.
abbrev pub same_role : Role → Role → Bool
same_role x y = y.id == x.id

-- idx_active_invite_token
abbrev pub same_token : Invitation → Invitation → Bool
same_token i j = invite_active i.status && has_active_token i.token j

-- memberships_role_org_fk and invitations_role_org_fk: a role is held in its own organization.
abbrev pub RoleInOrg : List Role → Membership → Type 0
RoleInOrg roles m = role_in_org roles m.organization_id m.role_id ≡ true

abbrev pub InviteInOrg : List Role → Invitation → Type 0
InviteInOrg roles i = role_in_org roles i.organization_id i.role_id ≡ true

pub record IsValid (d : Db) : Type 0 where
  pub unique_roles : Unique same_role d.roles
  pub unique_members : Unique same_member d.memberships
  pub roles_in_org : All (RoleInOrg d.roles) d.memberships
  pub unique_tokens : Unique same_token d.invitations
  pub invites_in_org : All (InviteInOrg d.roles) d.invitations

-- A change of role moves no membership.
module _ (org user r : Uuid) where
  exists-set_role :
      (m : Membership) (ms : List Membership)
      → exists_row (same_member m) (update_rows (is_member org user) (set_role r) ms)
        ≡ exists_row (same_member m) ms
  exists-set_role m [] = refl
  exists-set_role m (x ∷ ms) = ground (arith, exists-set_role m ms)

  pub set_role-Unique :
      (ms : List Membership)
      → Unique same_member ms
      → Unique same_member (update_rows (is_member org user) (set_role r) ms)
  set_role-Unique [] u = tt
  set_role-Unique (m ∷ ms) u = ground (arith, exists-set_role m ms, set_role-Unique ms u.1)

  -- The foreign key holds of the rows that change, if there is one.
  pub set_role-RoleInOrg :
      (roles : List Role) (ms : List Membership)
      → (exists_row (is_member org user) ms && (if role_in_org roles org r then false else true))
        ≡ false
      → All (RoleInOrg roles) ms
      → All (RoleInOrg roles) (update_rows (is_member org user) (set_role r) ms)
  set_role-RoleInOrg roles [] h a = tt
  set_role-RoleInOrg roles (m ∷ ms) h a = ground (arith, set_role-RoleInOrg roles ms)

-- An invitation only ever leaves the status 'active'.
module _ (s : InviteStatus) (done : invite_active s ≡ false) (p : Invitation → Bool) where
  abbrev close_invite : List Invitation → List Invitation
  close_invite = update_rows p (λ (i : Invitation). record i { status = s })

  exists-close :
      (i : Invitation) (is : List Invitation)
      → exists_row (same_token i) is ≡ false
      → exists_row (same_token i) (close_invite is) ≡ false
  exists-close i [] h = refl
  exists-close i (j ∷ is) h = ground (arith, exists-close i is)

  exists-closed :
      (i : Invitation) (is : List Invitation)
      → invite_active i.status ≡ false
      → exists_row (same_token i) is ≡ false
  exists-closed i [] h = refl
  exists-closed i (j ∷ is) h = ground (arith, exists-closed i is h)

  pub close-Unique :
      (is : List Invitation) → Unique same_token is → Unique same_token (close_invite is)
  close-Unique [] u = tt
  close-Unique (i ∷ is) u = elim (Bool-cases (p i)) [
    | inl hit ↦
        rw hit (exists-closed (record i { status = s }) (close_invite is) done, close-Unique is u.1)
    | inr miss ↦ rw miss (exists-close i is u.0, close-Unique is u.1)
  ]

  pub close-InviteInOrg :
      (roles : List Role) (is : List Invitation)
      → All (InviteInOrg roles) is
      → All (InviteInOrg roles) (close_invite is)
  close-InviteInOrg roles is = update-All p (InviteInOrg roles) _ (λ x _ h. h) is
