-- ===== src/System/Governed.antt =====
-- Every organization has an active owner: what a foundation does for it.
use multi_tenant_authorizati.Base.{
  ◌<◌, ◌≤◌, ◌≡◌, refl, sym, subst, ◌⊎◌, inl, inr, true, ◌&&◌, some, String, List, [], ◌∷◌, arith,
  Bool-cases, Option-cases,
}
use multi_tenant_authorizati.Db.Rows.{All, count_rows}
use multi_tenant_authorizati.Db.RowLaws.{map-All}
use multi_tenant_authorizati.Db.Schema.{
  Uuid, Organization, OrganizationType, Role, RoleKind, Membership, Db, owner, is_owner,
  member_active,
}
use multi_tenant_authorizati.Db.Go.{Moment, moment}
use multi_tenant_authorizati.Db.Provision.{provision_default_roles}
use multi_tenant_authorizati.Db.Ensures.{
  Ensures, Ensures-bind, Ensures-query_row, Ensures-weaken, Ensures-assume, Ensures-pure,
  Ensures-both,
}
use multi_tenant_authorizati.Membership.Repository.{
  active_owners, is_active_owner, kind_among, is_member, role_kind,
}
use multi_tenant_authorizati.Membership.Valid.{IsValid}
use multi_tenant_authorizati.Membership.Guards.{IsOwner}
use multi_tenant_authorizati.Organization.Repository.{
  create, get_role_id_by_kind, add_owner_membership, bootstrap,
}
use multi_tenant_authorizati.Organization.Founding.{
  bootstrap-IsOwner, provision-Unique, with_organization,
}
use multi_tenant_authorizati.System.Provisioned.{
  provision-Provisions, Provisions-IsValid, Provisions-owners,
}

-- Each organization has an active owner; `but` is one that may have none yet.
abbrev pub Owned : Db → Organization → Type 0
Owned d o = 0 < active_owners o.id d

abbrev OwnedBut : Uuid → Db → Organization → Type 0
OwnedBut but d o = (o.id ≡ but) ⊎ Owned d o

pub record IsGoverned (d : Db) : Type 0 where
  pub valid : IsValid d
  pub owned : All (Owned d) d.organizations

abbrev HalfFounded : Uuid → Db → Type 0
HalfFounded org d = IsValid d × All (OwnedBut org d) d.organizations

founded :
    (name : String) (org_type : OrganizationType) (t : Moment) (d d' : Db)
    → IsGoverned d
    → provision_default_roles t (t.fresh 0) (with_organization name org_type t d) ≡ some d'
    → HalfFounded (t.fresh 0) d'
founded name org_type t d d' g made =
    let p = provision-Provisions t (t.fresh 0) (with_organization name org_type t d) d' made in
    let u =
      provision-Unique t (t.fresh 0) (with_organization name org_type t d) d' g.valid.unique_roles
        made in
    let v : IsValid (with_organization name org_type t d) = record {
      unique_roles = g.valid.unique_roles;
      unique_members = g.valid.unique_members;
      roles_in_org = g.valid.roles_in_org;
      unique_tokens = g.valid.unique_tokens;
      invites_in_org = g.valid.invites_in_org;
    } in
    (
      Provisions-IsValid (with_organization name org_type t d) d' p u v,
      subst (All (OwnedBut (t.fresh 0) d')) (sym p.organizations) (
        inl refl,
        map-All
            (λ o h.
              inr (
                omega
                  (arith, h, Provisions-owners (with_organization name org_type t d) d' o.id p)))
            d.organizations g.owned,
      ),
    )

create-HalfFounded :
    (name : String) (org_type : OrganizationType)
    → Ensures IsGoverned (create name org_type) (λ org d. HalfFounded org d)
unfolding create
create-HalfFounded name org_type = record {
  at = λ e w a p h.
      let t = moment e w.step in
      elim (Option-cases
        (provision_default_roles t (t.fresh 0) (with_organization name org_type t w.db))) [
          | inl failed ↦ absurd (ground arith)
          | inr (d', made) ↦
              let half = founded name org_type t w.db d' p made in
              let same : d' ≡ (create name org_type e w).1.db = ground arith in
              let id : t.fresh 0 ≡ a = ground arith in
              subst (λ x. HalfFounded a x) same (subst (λ x. HalfFounded x d') id half)
        ];
}

get_role_id_by_kind-HalfFounded :
    (org : Uuid)
    → Ensures (HalfFounded org) (get_role_id_by_kind org owner) (λ _ d. HalfFounded org d)
unfolding get_role_id_by_kind
get_role_id_by_kind-HalfFounded org = Ensures-weaken (λ _ d q. q.0) (Ensures-query_row _ _)

-- One more membership costs no organization its owner.
add_owner_membership-HalfFounded :
    (org user r : Uuid)
    → Ensures (HalfFounded org) (add_owner_membership org user r) (λ _ d. HalfFounded org d)
unfolding add_owner_membership
add_owner_membership-HalfFounded org user r = record {
  at = λ e w a p h.
      let d' = (add_owner_membership org user r e w).1.db in
      let v : IsValid d' = ground arith in
      let same : w.db.organizations ≡ d'.organizations = ground arith in
      let more : (o : Uuid) → active_owners o w.db ≤ active_owners o d' = λ o. ground arith in
      (
        v,
        subst (All (OwnedBut org d')) same
            (map-All (λ o q. still w.db d' o (more o.id) q) w.db.organizations p.1),
      );
}
  where
    still :
        (d d' : Db) (o : Organization)
        → active_owners o.id d ≤ active_owners o.id d'
        → OwnedBut org d o
        → OwnedBut org d' o
    still d d' o more (inl e) = inl e
    still d d' o more (inr h) = inr (omega (arith, more, h))

owner-counts :
    (roles : List Role) (org user : Uuid) (k : RoleKind) (ms : List Membership)
    → kind_among roles org user ms ≡ some k
    → is_owner k ≡ true
    → 0 < count_rows (is_active_owner roles org) ms
owner-counts roles org user k [] h o = absurd (cc)
owner-counts roles org user k (m ∷ ms) h o =
    elim (Bool-cases (is_member org user m && member_active m.status)) [
      | inl hit ↦ elim (Option-cases (role_kind roles m.role_id)) [
        | inl missing ↦ ground (arith, owner-counts roles org user k ms)
        | inr (k', found) ↦ ground arith
      ]
      | inr miss ↦ ground (arith, owner-counts roles org user k ms)
    ]

-- The new organization has its founder.
complete : (org user : Uuid) (d : Db) → HalfFounded org d → IsOwner org user d → IsGoverned d
complete org user d (v, all) (k, found, o) = record {
  valid = v;
  owned =
      map-All (λ x q. owns x q (owner-counts d.roles org user k d.memberships found o))
        d.organizations all;
}
  where
    owns : (x : Organization) → OwnedBut org d x → 0 < active_owners org d → Owned d x
    owns x (inl e) h = subst (λ i. 0 < active_owners i d) (sym e) h
    owns x (inr h) _ = h

bootstrap-HalfFounded :
    (name : String) (org_type : OrganizationType) (user : Uuid)
    → Ensures IsGoverned (bootstrap name org_type user) (λ org d. HalfFounded org d)
unfolding bootstrap
bootstrap-HalfFounded name org_type user = Ensures-bind (create-HalfFounded name org_type) λ org.
    Ensures-bind (get_role_id_by_kind-HalfFounded org) λ r.
      Ensures-bind (add_owner_membership-HalfFounded org user r)
        λ _. Ensures-weaken (λ o d q. subst (λ x. HalfFounded x d) (sym q.1) q.0) (Ensures-pure org)

-- A foundation leaves every organization with an owner, the new one too.
pub bootstrap-IsGoverned :
    (name : String) (org_type : OrganizationType) (user : Uuid)
    → Ensures IsGoverned (bootstrap name org_type user) (λ _ d. IsGoverned d)
bootstrap-IsGoverned name org_type user =
    Ensures-weaken (λ org d q. complete org user d q.0 q.1)
      (Ensures-both (bootstrap-HalfFounded name org_type user)
        (Ensures-assume (λ d g. g.valid.unique_roles) (bootstrap-IsOwner name org_type user)))
