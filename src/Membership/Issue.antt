-- ===== src/Membership/Issue.antt =====
-- The steps of Invite and RotateInvite: what each statement and guard has established.
use multi_tenant_authorizati.Base.{
  ◌≡◌, refl, sym, subst, ◌⊎◌, inl, inr, Bool, true, false, ◌&&◌, ◌==◌, none, some, List, [], ◌∷◌,
  arith, if◌then◌else◌,
}
use multi_tenant_authorizati.Db.Rows.{exists_row, first_row}
use multi_tenant_authorizati.Db.RowLaws.{exists-update_self, exists-update}
use multi_tenant_authorizati.Db.Schema.{
  Uuid, Time, Digest, RoleKind, OrganizationType, Organization, Invitation, InviteStatus, Db,
  is_owner, is_personal, org_active,
}
use multi_tenant_authorizati.Db.Ensures.{Ensures, Ensures-bind, Ensures-assume, Ensures-both}
use multi_tenant_authorizati.Membership.Repository.{
  active_org_type, role_kind_in, active_invitation, is_active_invite, invitation_in,
  create_link_invitation, revoke_invitation,
}
use multi_tenant_authorizati.Membership.Service.{rotate_tx}
use multi_tenant_authorizati.Membership.Guards.{IsOwner}

-- The token resolves to an active invitation of the organization, for the role and the time.
abbrev pub Issued : Digest → Uuid → Uuid → Time → Db → Type 0
Issued token org role expires d =
    (i : Invitation) × (active_invitation token d ≡ some i)
    × (i.organization_id ≡ org)
    × (i.role_id ≡ role)
    × (i.expires_at ≡ expires)

-- The role is one of the organization, and only an owner hands out the role of an owner.
abbrev MayGrant : Uuid → Uuid → Uuid → Db → Type 0
MayGrant org actor role d =
    (k : RoleKind) × (role_kind_in org role d ≡ some k)
    × ((is_owner k ≡ false) ⊎ IsOwner org actor d)

abbrev pub is_active_org : Uuid → Organization → Bool
is_active_org org o = o.id == org && org_active o.status

type_of_active :
    (org : Uuid) (t : OrganizationType) (os : List Organization)
    → first_row (λ (o : Organization). if is_active_org org o then some o.org_type else none) os
      ≡ some t
    → exists_row (is_active_org org) os ≡ true
type_of_active org t [] h = cc
type_of_active org t (o ∷ os) h = ground (arith, type_of_active org t os)

-- The row that CreateLinkInvitation inserts.
abbrev new_invitation : Uuid → Uuid → Uuid → Digest → Time → Uuid → Invitation
new_invitation org role creator token expires id = record {
  id = id;
  organization_id = org;
  token = token;
  role_id = role;
  status = InviteStatus.active;
  created_by = creator;
  expires_at = expires;
}

pub create_link_invitation-Issued :
    (org role creator : Uuid) (token : Digest) (expires : Time)
    → Ensures
        (λ d. exists_row (is_active_org org) d.organizations ≡ true)
        (create_link_invitation org role creator token expires)
        (λ _ d. Issued token org role expires d)
unfolding create_link_invitation
create_link_invitation-Issued org role creator token expires = record {
  at = λ e w a p h. (
    new_invitation org role creator token expires (e.uuid w.step 0),
    ground arith,
    refl,
    refl,
    refl,
  );
}

-- An identifier that is in use is not generated again.
fresh-ne :
    (id f : Uuid) (is : List Invitation)
    → exists_row (λ (x : Invitation). x.id == id) is ≡ true
    → exists_row (λ (x : Invitation). x.id == f) is ≡ false
    → (f == id) ≡ false
fresh-ne id f [] h free = cc
fresh-ne id f (i ∷ is) h free = ground (arith, fresh-ne id f is)

found_id :
    (id : Uuid) (b : Invitation → Bool) (i : Invitation) (is : List Invitation)
    → first_row (λ (x : Invitation). if x.id == id && b x then some x else none) is ≡ some i
    → (exists_row (λ (x : Invitation). x.id == id) is ≡ true) × (i.id ≡ id)
found_id id b i [] h = cc
found_id id b i (x ∷ is) h = ground (arith, found_id id b i is)

-- The invitation `id` exists, and is not active.
abbrev pub Closed : Uuid → Db → Type 0
Closed id d =
    (exists_row (is_active_invite id) d.invitations ≡ false)
    × (exists_row (λ (x : Invitation). x.id == id) d.invitations ≡ true)

create_link_invitation-Closed :
    (id org role creator : Uuid) (token : Digest) (expires : Time)
    → Ensures
        (Closed id)
        (create_link_invitation org role creator token expires)
        (λ _ d. Closed id d)
unfolding create_link_invitation
create_link_invitation-Closed id org role creator token expires = record {
  at = λ e w a p h. ground (arith, fresh-ne id (e.uuid w.step 0) w.db.invitations p.1);
}

revoke_invitation-Closed :
    (id : Uuid)
    → Ensures
        (λ d. exists_row (λ (x : Invitation). x.id == id) d.invitations ≡ true)
        (revoke_invitation id)
        (λ _ d. Closed id d)
unfolding revoke_invitation
revoke_invitation-Closed id = record {
  at = λ e w a p h. ground (
    arith,
    exists-update_self (is_active_invite id)
        (λ (i : Invitation). record i { status = InviteStatus.revoked }) (λ x. ground arith)
        w.db.invitations,
    exists-update (is_active_invite id)
        (λ (i : Invitation). record i { status = InviteStatus.revoked })
        (λ (x : Invitation). x.id == id) (λ x. refl) w.db.invitations,
  );
}

revoke_invitation-org :
    (id org : Uuid)
    → Ensures
        (λ d. exists_row (is_active_org org) d.organizations ≡ true)
        (revoke_invitation id)
        (λ _ d. exists_row (is_active_org org) d.organizations ≡ true)
unfolding revoke_invitation
revoke_invitation-org id org = record { at = λ e w a p h. ground arith }

-- The organization is active and not a personal one.
abbrev pub MayInvite : Uuid → Uuid → Uuid → Db → Type 0
MayInvite org inviter role d =
    (t : OrganizationType) × (active_org_type org d ≡ some t)
    × (is_personal t ≡ false)
    × MayGrant org inviter role d

-- What `invite` has read when its guards have let it pass.
abbrev ReadInvite : OrganizationType → RoleKind → Uuid → Uuid → Db → Db → Type 0
ReadInvite t k org role d₀ d =
    (((d ≡ d₀) × (active_org_type org d ≡ some t)) × (is_personal t ≡ false))
    × (role_kind_in org role d ≡ some k)

pub may_invite :
    (t : OrganizationType) (k : RoleKind) (org inviter role : Uuid) (d₀ d : Db)
    → ((is_owner k ≡ true) × (ReadInvite t k org role d₀ d × IsOwner org inviter d))
      ⊎ ((is_owner k ≡ false) × ReadInvite t k org role d₀ d)
    → MayInvite org inviter role d₀ × (exists_row (is_active_org org) d.organizations ≡ true)
may_invite t k org inviter role d₀ d (inl (o, (q, by))) = (
  subst (MayInvite org inviter role) q.0.0.0 (t, q.0.0.1, q.0.1, (k, q.1, inr by)),
  type_of_active org t d.organizations q.0.0.1,
)
may_invite t k org inviter role d₀ d (inr (o, q)) = (
  subst (MayInvite org inviter role) q.0.0.0 (t, q.0.0.1, q.0.1, (k, q.1, inl o)),
  type_of_active org t d.organizations q.0.0.1,
)

-- What `rotate_invite` has read when its guard has let it pass.
abbrev ReadRotate : Invitation → RoleKind → Uuid → Uuid → Db → Db → Type 0
ReadRotate i k org id d₀ d =
    ((d ≡ d₀) × (invitation_in org id d ≡ some i)) × (role_kind_in org i.role_id d ≡ some k)

-- The invitation belongs to the organization, which is active, and the actor may grant its role.
abbrev pub MayRotate : Uuid → Uuid → Uuid → Invitation → Db → Type 0
MayRotate org actor id i d = (invitation_in org id d ≡ some i) × MayGrant org actor i.role_id d

-- Where a rotation starts: the old invitation is there, and its organization is active.
abbrev Ready : Uuid → Uuid → Db → Type 0
Ready org id d =
    (exists_row (λ (x : Invitation). x.id == id) d.invitations ≡ true)
    × (exists_row (is_active_org org) d.organizations ≡ true)

found_ready :
    (org id : Uuid) (i : Invitation) (os : List Organization) (is : List Invitation)
    → first_row
        (λ (x : Invitation).
          if x.id == id
            && x.organization_id == org
            && exists_row
                (λ (o : Organization). o.id == x.organization_id && org_active o.status)
                os
          then some x
          else none)
        is
      ≡ some i
    → ((i.id ≡ id) × (exists_row (λ (x : Invitation). x.id == id) is ≡ true))
      × (exists_row (is_active_org org) os ≡ true)
found_ready org id i os [] h = cc
found_ready org id i os (x ∷ is) h = ground (arith, found_ready org id i os is)

ready :
    (org id : Uuid) (i : Invitation) (d : Db) → invitation_in org id d ≡ some i → Ready org i.id d
ready org id i d found =
    let f = found_ready org id i d.organizations d.invitations found in
    (
      subst (λ j. exists_row (λ (x : Invitation). x.id == j) d.invitations ≡ true) (sym f.0.0)
          f.0.1,
      f.1,
    )

pub may_rotate :
    (i : Invitation) (k : RoleKind) (org actor id : Uuid) (d₀ d : Db)
    → ((is_owner k ≡ true) × (ReadRotate i k org id d₀ d × IsOwner org actor d))
      ⊎ ((is_owner k ≡ false) × ReadRotate i k org id d₀ d)
    → MayRotate org actor id i d₀ × Ready org i.id d
may_rotate i k org actor id d₀ d (inl (o, (q, by))) =
    (subst (MayRotate org actor id i) q.0.0 (q.0.1, (k, q.1, inr by)), ready org id i d q.0.1)
may_rotate i k org actor id d₀ d (inr (o, q)) =
    (subst (MayRotate org actor id i) q.0.0 (q.0.1, (k, q.1, inl o)), ready org id i d q.0.1)

pub rotate_tx-Ensures :
    (i : Invitation) (org actor : Uuid) (token : Digest) (expires : Time)
    → Ensures
        (Ready org i.id)
        (rotate_tx i org actor token expires)
        (λ _ d. Issued token org i.role_id expires d × Closed i.id d)
unfolding rotate_tx
rotate_tx-Ensures i org actor token expires =
    Ensures-bind
      (Ensures-both (Ensures-assume (λ d q. q.0) (revoke_invitation-Closed i.id))
        (Ensures-assume (λ d q. q.1) (revoke_invitation-org i.id org)))
      λ _.
        Ensures-both
          (Ensures-assume (λ d q. q.1)
            (create_link_invitation-Issued org i.role_id actor token expires))
          (Ensures-assume (λ d q. q.0)
            (create_link_invitation-Closed i.id org i.role_id actor token expires))
