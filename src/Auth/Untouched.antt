-- ===== src/Auth/Untouched.antt =====
-- What leaves the table of sessions alone: every condition on the sessions is kept.
use multi_tenant_authorizati.Base.{◌≡◌, String, List, inl, inr, subst, arith, Option-cases, sym}
use multi_tenant_authorizati.Db.Schema.{Uuid, Digest, Session, OrganizationType, Db}
use multi_tenant_authorizati.Db.Go.{Go, Env, World, moment}
use multi_tenant_authorizati.Db.Provision.{provision_default_roles}
use multi_tenant_authorizati.Db.Keeps.{Keeps, keeps_rules}
use multi_tenant_authorizati.Audit.{LogEntry, log, log_best_effort}
use multi_tenant_authorizati.Organization.Repository.{
  create, get_role_id_by_kind, add_owner_membership, bootstrap, update_name, soft_delete,
}
use multi_tenant_authorizati.Organization.Founding.{with_organization}
use multi_tenant_authorizati.Auth.Repository.{NewUser, create_user}
use multi_tenant_authorizati.Auth.Service.{
  Passwords, TokenTtl, new_tokens, generate_opaque_token, authenticate,
}
use multi_tenant_authorizati.Auth.Users.{provision_users}
use multi_tenant_authorizati.Auth.SignIn.{authenticate_reads}

module _ (P : List Session → Type 0) where
  abbrev pub OnSessions : Db → Type 0
  OnSessions d = P d.sessions

  -- An action after which the table of sessions is the same.
  pub unchanged :
      {A : Type 0} (m : Go A)
      → ((e : Env) (w : World) → w.db.sessions ≡ (m e w).1.db.sessions)
      → Keeps OnSessions m
  unchanged m same = record { at = λ e w h. subst P (same e w) h }

  pub create_user-Untouched : (u : NewUser) → Keeps OnSessions (create_user u)
  unfolding create_user
  create_user-Untouched u = unchanged _ λ e w. ground arith

  pub log_best_effort-Untouched : (l : LogEntry) → Keeps OnSessions (log_best_effort l)
  unfolding log_best_effort log
  log_best_effort-Untouched l = unchanged _ λ e w. ground arith

  create-Untouched : (name : String) (t : OrganizationType) → Keeps OnSessions (create name t)
  unfolding create
  create-Untouched name t = unchanged _ λ e w.
      let m = moment e w.step in
      elim (Option-cases
        (provision_default_roles m (m.fresh 0) (with_organization name t m w.db))) [
          | inl failed ↦ ground arith
          | inr (d', made) ↦
              let kept = provision_users m (m.fresh 0) (with_organization name t m w.db) d' made in
              ground arith
        ]

  add_owner_membership-Untouched :
      (org user r : Uuid) → Keeps OnSessions (add_owner_membership org user r)
  unfolding add_owner_membership
  add_owner_membership-Untouched org user r = unchanged _ λ e w. ground arith

  pub update_name-Untouched : (org : Uuid) (name : String) → Keeps OnSessions (update_name org name)
  unfolding update_name
  update_name-Untouched org name = unchanged _ λ e w. ground arith

  pub soft_delete-Untouched : (org : Uuid) → Keeps OnSessions (soft_delete org)
  unfolding soft_delete
  soft_delete-Untouched org = unchanged _ λ e w. ground arith

ruleset untouched_rules = (keeps_rules, create-Untouched, add_owner_membership-Untouched)

module _ (P : List Session → Type 0) where
  pub bootstrap-Untouched :
      (name : String) (t : OrganizationType) (user : Uuid)
      → Keeps (OnSessions P) (bootstrap name t user)
  unfolding bootstrap get_role_id_by_kind
  bootstrap-Untouched name t user = search untouched_rules depth 9

  pub new_tokens-Untouched :
      (sha256 : String → Digest) (ttl : TokenTtl) → Keeps (OnSessions P) (new_tokens sha256 ttl)
  unfolding new_tokens generate_opaque_token
  new_tokens-Untouched sha256 ttl = search keeps_rules depth 9

  pub authenticate-Untouched :
      (sha256 : String → Digest) (ttl : TokenTtl) (passwords : Passwords)
      (identifier password : String)
      → Keeps (OnSessions P) (authenticate sha256 ttl passwords identifier password)
  authenticate-Untouched sha256 ttl passwords identifier password = record {
    at = λ e w h.
        subst (OnSessions P) (sym (authenticate_reads sha256 ttl passwords identifier password e w))
          h;
  }
