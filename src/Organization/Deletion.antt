-- ===== src/Organization/Deletion.antt =====
-- The soft deletion of an organization: it ends all access and all invitations.
use multi_tenant_authorizati.Base.{
  ◌≡◌, refl, subst, inl, inr, Bool, true, false, ◌&&◌, ◌==◌, some, List, [], ◌∷◌, arith, String,
  Bool-cases,
}
use multi_tenant_authorizati.Apperrors.{
  Result, ok, err, organization_not_found, cannot_delete_personal_org,
}
use multi_tenant_authorizati.Db.Rows.{exists_row, update_rows, count_rows}
use multi_tenant_authorizati.Db.RowLaws.{exists-update_self, count_of_absent}
use multi_tenant_authorizati.Db.Schema.{
  Uuid, Organization, OrganizationStatus, Invitation, InviteStatus, Membership, Db, is_personal,
  member_active,
}
use multi_tenant_authorizati.Db.Go.{Env, World}
use multi_tenant_authorizati.Db.Ensures.{
  Ensures, Ensures-bind, Ensures-raise_if, Ensures-weaken, Ensures-assume, Ensures-frame,
}
use multi_tenant_authorizati.Organization.Repository.{
  is_invite_of, is_active_org, live_org, soft_delete,
}
use multi_tenant_authorizati.Organization.Service.{delete_organization}
use multi_tenant_authorizati.Organization.Founded.{get_by_id-Ensures}
use multi_tenant_authorizati.Authz.{allows, org_is_active, role_grants}

-- No row of the organization is active, and no invitation to it.
abbrev pub Shut : Uuid → Db → Type 0
Shut org d =
    (exists_row (is_active_org org) d.organizations ≡ false)
    × (exists_row (is_invite_of org) d.invitations ≡ false)

-- The result of SoftDelete, by whether the organization was active.
abbrev deleted_or_missing : Bool → Result Unit
deleted_or_missing true = ok tt
deleted_or_missing false = err organization_not_found

present-count :
    {A : Type 0} (p : A → Bool) (xs : List A)
    → exists_row p xs ≡ true
    → (count_rows p xs == 0) ≡ false
present-count p [] h = cc
present-count p (x ∷ xs) h = ground (arith, present-count p xs)

-- The two updates of the statement.
updates-Shut :
    (org : Uuid) (f : Organization → Organization) (d : Db)
    → ((o : Organization) → is_active_org org (f o) ≡ false)
    → (exists_row (is_active_org org) (update_rows (is_active_org org) f d.organizations) ≡ false)
      × (exists_row (is_invite_of org) (
            update_rows
              (is_invite_of org)
              (λ (i : Invitation). record i { status = InviteStatus.revoked })
              d.invitations)
          ≡ false)
updates-Shut org f d off = (
  exists-update_self (is_active_org org) f off d.organizations,
  exists-update_self (is_invite_of org) _ (λ i. ground arith) d.invitations,
)

-- While the database answers, SoftDelete leaves no active organization of the identifier and no
-- active invitation to it. It reports ErrOrganizationNotFound if the organization was not active,
-- and has revoked the invitations then too.
pub soft_delete-Shut :
    (org : Uuid) (e : Env) (w : World)
    → e.fails w.step ≡ false
    → ((soft_delete org e w).0
        ≡ deleted_or_missing (exists_row (is_active_org org) w.db.organizations))
      × Shut org (soft_delete org e w).1.db
unfolding soft_delete
soft_delete-Shut org e w up =
    elim (Bool-cases (exists_row (is_active_org org) w.db.organizations)) [
      | inl present ↦
          ground (arith, present-count (is_active_org org) w.db.organizations present, shut)
      | inr absent ↦
          ground (arith, count_of_absent (is_active_org org) w.db.organizations absent, shut)
    ]
  where
    closed : Organization → Organization
    closed o = record o { status = OrganizationStatus.deleted; updated_at = e.clock w.step }

    shut :
        (exists_row (is_active_org org) (update_rows (is_active_org org) closed w.db.organizations)
          ≡ false)
        × (exists_row (is_invite_of org) (
              update_rows
                (is_invite_of org)
                (λ (i : Invitation). record i { status = InviteStatus.revoked })
                w.db.invitations)
            ≡ false)
    shut = updates-Shut org closed w.db (λ o. ground arith)

soft_delete-Ensures :
    {P : Db → Type 0} (org : Uuid) → Ensures P (soft_delete org) (λ _ d. Shut org d)
unfolding soft_delete
soft_delete-Ensures org = record {
  at = λ e w a p h. elim (Bool-cases (e.fails w.step)) [
    | inl down ↦ ground arith
    | inr up ↦ (soft_delete-Shut org e w up).1
  ];
}

active_at :
    (d : Db) (org o : Uuid)
    → exists_row (is_active_org org) d.organizations ≡ false
    → (o == org) ≡ true
    → org_is_active d o ≡ false
active_at d org o h same = subst (λ x. org_is_active d x ≡ false) (ground arith) h

-- An organization that is not active lets nobody do anything.
shut-denies :
    (user org : Uuid) (key : String) (d : Db) (ms : List Membership)
    → exists_row (is_active_org org) d.organizations ≡ false
    → exists_row
        (λ (m : Membership).
          m.user_id == user
          && m.organization_id == org
          && member_active m.status
          && org_is_active d m.organization_id
          && role_grants d m.role_id key)
        ms
      ≡ false
shut-denies user org key d [] h = refl
shut-denies user org key d (m ∷ ms) h =
    ground (arith, active_at d org m.organization_id h, shut-denies user org key d ms h)

found_live :
    (org : Uuid) (d₀ : Db) (o : Organization) (d : Db)
    → ((d ≡ d₀) × (live_org org d ≡ some o)) × (is_personal o.org_type ≡ false)
    → (live_org org d₀ ≡ some o) × (is_personal o.org_type ≡ false)
found_live org d₀ o d q = (subst (λ x. live_org org x ≡ some o) q.0.0 q.0.1, q.1)

-- A call of DeleteOrganization that succeeds was made for an organization that is not a personal
-- workspace, and leaves it shut: nobody may do anything in it, and no invitation to it is active.
pub delete_organization-Shut :
    (org user : Uuid) (key : String) (e : Env) (w : World)
    → (delete_organization org e w).0 ≡ ok tt
    → ((o : Organization) × (live_org org w.db ≡ some o) × (is_personal o.org_type ≡ false))
      × (allows user org key (delete_organization org e w).1.db ≡ false)
      × (exists_row (is_invite_of org) (delete_organization org e w).1.db.invitations ≡ false)
unfolding delete_organization
delete_organization-Shut org user key e w h =
    (Ensures-bind {P = λ d. d ≡ w.db} {Q = λ _ d. Goal d} (get_by_id-Ensures org) λ o.
        Ensures-bind (Ensures-raise_if (is_personal o.org_type) cannot_delete_personal_org) λ _.
          Ensures-assume (λ d q. (found_live org w.db o d q, tt))
            (Ensures-weaken
              (λ _ d q. ((o, q.0.0, q.0.1), shut-denies user org key d d.memberships q.1.0, q.1.1))
              (Ensures-frame {P = λ _. Unit} (soft_delete-Ensures org)))).at
      e w tt refl h
  where
    Goal : Db → Type 0
    Goal d =
        ((o : Organization) × (live_org org w.db ≡ some o) × (is_personal o.org_type ≡ false))
        × (allows user org key d ≡ false)
        × (exists_row (is_invite_of org) d.invitations ≡ false)
