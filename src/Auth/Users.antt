-- ===== src/Auth/Users.antt =====
-- What Register does behind the insertion of its user leaves the table of users alone.
use multi_tenant_authorizati.Base.{◌≡◌, subst, inl, inr, some, String, List, arith, Option-cases}
use multi_tenant_authorizati.Db.Rows.{select}
use multi_tenant_authorizati.Db.Schema.{Uuid, User, OrganizationType, RoleKind, Db}
use multi_tenant_authorizati.Db.Go.{Moment, moment}
use multi_tenant_authorizati.Db.Provision.{clone_roles, provision_default_roles, is_template}
use multi_tenant_authorizati.Db.Ensures.{Ensures, Ensures-bind, Ensures-weaken, Ensures-pure}
use multi_tenant_authorizati.Organization.Repository.{
  create, get_role_id_by_kind, add_owner_membership, bootstrap,
}
use multi_tenant_authorizati.Organization.Founding.{with_organization}
use multi_tenant_authorizati.Audit.{LogEntry, log, log_best_effort}
use multi_tenant_authorizati.Auth.Repository.{NewSession, create_session}

-- The trigger writes roles and their grants: users and sessions stay.
pub provision_users :
    (t : Moment) (org : Uuid) (d d' : Db)
    → provision_default_roles t org d ≡ some d'
    → (d'.users ≡ d.users) × (d'.sessions ≡ d.sessions)
unfolding provision_default_roles
provision_users t org d d' h =
    elim (Option-cases (clone_roles t 1 org (select is_template d.roles) d.roles)) [
      | inl failed ↦ ground arith
      | inr (roles, cloned) ↦ ground arith
    ]

module _ (P : List User → Type 0) where
  create_users :
      (name : String) (org_type : OrganizationType)
      → Ensures (λ d. P d.users) (create name org_type) (λ _ d. P d.users)
  unfolding create
  create_users name org_type = record {
    at = λ e w a p h.
        let t = moment e w.step in
        elim (Option-cases
          (provision_default_roles t (t.fresh 0) (with_organization name org_type t w.db))) [
            | inl failed ↦ ground arith
            | inr (d', made) ↦
                let kept =
                  provision_users t (t.fresh 0) (with_organization name org_type t w.db) d' made in
                subst P (ground arith) p
          ];
  }

  add_owner_membership_users :
      (org owner r : Uuid)
      → Ensures (λ d. P d.users) (add_owner_membership org owner r) (λ _ d. P d.users)
  unfolding add_owner_membership
  add_owner_membership_users org owner r = record { at = λ e w a p h. subst P (ground arith) p }

  get_role_id_by_kind_users :
      (org : Uuid) (kind : RoleKind)
      → Ensures (λ d. P d.users) (get_role_id_by_kind org kind) (λ _ d. P d.users)
  unfolding get_role_id_by_kind
  get_role_id_by_kind_users org kind = record { at = λ e w a p h. subst P (ground arith) p }

  pub bootstrap_users :
      (name : String) (org_type : OrganizationType) (owner : Uuid)
      → Ensures (λ d. P d.users) (bootstrap name org_type owner) (λ _ d. P d.users)
  unfolding bootstrap
  bootstrap_users name org_type owner = Ensures-bind (create_users name org_type) λ org.
      Ensures-bind (get_role_id_by_kind_users org _) λ r.
        Ensures-bind (add_owner_membership_users org owner r)
          λ _. Ensures-weaken (λ _ d q. q.0) (Ensures-pure org)

  pub create_session_users :
      (s : NewSession) → Ensures (λ d. P d.users) (create_session s) (λ _ d. P d.users)
  unfolding create_session
  create_session_users s = record { at = λ e w a p h. subst P (ground arith) p }

  pub log_best_effort_users :
      (l : LogEntry) → Ensures (λ d. P d.users) (log_best_effort l) (λ _ d. P d.users)
  unfolding log_best_effort log
  log_best_effort_users l = record { at = λ e w a p h. subst P (ground arith) p }
