-- ===== src/System/Calls.antt =====
-- A step of the whole service: one call of any of its services that writes the database.
use multi_tenant_authorizati.Base.{ℕ, String, arith, subst}
use multi_tenant_authorizati.Db.Rows.{All}
use multi_tenant_authorizati.Db.RowLaws.{map-All}
use multi_tenant_authorizati.Db.Schema.{Uuid, Digest, Db}
use multi_tenant_authorizati.Db.Go.{Go, Env, pure, ◌>>=◌}
use multi_tenant_authorizati.Db.Driver.{Driver}
use multi_tenant_authorizati.Db.Keeps.{Keeps, keeps_rules}
use multi_tenant_authorizati.Authz.{Decision, record_decision}
use multi_tenant_authorizati.Membership.System.{
  Call as MembershipCall, perform as perform_membership, perform-IsValid, perform-HasOwner,
}
use multi_tenant_authorizati.Auth.Service.{
  Passwords, TokenTtl, RegisterInput, LoginInput, RefreshInput, register, login, refresh, logout,
  logout_all,
}
use multi_tenant_authorizati.Organization.Service.{
  create_organization, rename_organization, delete_organization,
}
use multi_tenant_authorizati.System.Governed.{IsGoverned, Owned}
use multi_tenant_authorizati.System.Statements.{untouched}
use multi_tenant_authorizati.System.Organizations.{perform_organizations}
use multi_tenant_authorizati.System.Tenants.{
  create_organization-IsGoverned, rename_organization-IsGoverned, delete_organization-IsGoverned,
}
use multi_tenant_authorizati.System.Accounts.{
  register-IsGoverned, login-IsGoverned, refresh-IsGoverned, logout-IsGoverned,
  logout_all-IsGoverned,
}

pub data Call : Type 0 where
  sign_up : RegisterInput → Call
  sign_in : LoginInput → Call
  rotate : RefreshInput → Call
  sign_out sign_out_everywhere : Uuid → Call
  found : Uuid → String → Call
  rename : Uuid → String → Call
  delete : Uuid → Call
  change_members : MembershipCall → Call
  note_decision : Decision → Call

module _ (sha256 : String → Digest) (ttl : TokenTtl) (passwords : Passwords) (pg : Driver) where
  unfoldable pub perform : Call → Go Unit
  perform (sign_up input) = do _ ← register sha256 ttl passwords pg input; pure tt
  perform (sign_in input) = do _ ← login sha256 ttl passwords input; pure tt
  perform (rotate input) = do _ ← refresh sha256 ttl pg input; pure tt
  perform (sign_out session) = logout session
  perform (sign_out_everywhere user) = logout_all user
  perform (found user name) = do _ ← create_organization pg user name; pure tt
  perform (rename org name) = do _ ← rename_organization org name; pure tt
  perform (delete org) = delete_organization org
  perform (change_members c) = perform_membership sha256 pg c
  perform (note_decision d) = record_decision d

  -- The databases that calls lead to, one after another.
  pub data Reaches (d : Db) : Db → Type 0 where
    here : Reaches d d
    step :
        (d' : Db) (c : Call) (e : Env) (n : ℕ)
        → Reaches d d'
        → Reaches d (perform c e (record { db = d'; step = n })).1.db

  record_decision-IsGoverned : (c : Decision) → Keeps IsGoverned (record_decision c)
  unfolding record_decision
  record_decision-IsGoverned c =
      untouched _ λ e w. (ground arith, ground arith, ground arith, ground arith)

  change_members-IsGoverned :
      (c : MembershipCall) → Keeps IsGoverned (perform_membership sha256 pg c)
  change_members-IsGoverned c = record {
    at = λ e w g.
        let d' = (perform_membership sha256 pg c e w).1.db in
        record {
          valid = (perform-IsValid sha256 pg c).at e w g.valid;
          owned = subst (All (Owned d')) (perform_organizations sha256 pg c e w) (
              map-All (λ o h. perform-HasOwner sha256 pg o.id c e w g.valid h) w.db.organizations
                g.owned);
        };
  }

  perform-IsGoverned : (c : Call) → Keeps IsGoverned (perform c)
  unfolding perform
  perform-IsGoverned (sign_up input) =
      search (keeps_rules, register-IsGoverned sha256 ttl passwords pg input)
  perform-IsGoverned (sign_in input) =
      search (keeps_rules, login-IsGoverned sha256 ttl passwords input)
  perform-IsGoverned (rotate input) = search (keeps_rules, refresh-IsGoverned sha256 ttl pg input)
  perform-IsGoverned (sign_out session) = logout-IsGoverned session
  perform-IsGoverned (sign_out_everywhere user) = logout_all-IsGoverned user
  perform-IsGoverned (found user name) =
      search (keeps_rules, create_organization-IsGoverned pg user name)
  perform-IsGoverned (rename org name) =
      search (keeps_rules, rename_organization-IsGoverned org name)
  perform-IsGoverned (delete org) = delete_organization-IsGoverned org
  perform-IsGoverned (change_members c) = change_members-IsGoverned c
  perform-IsGoverned (note_decision c) = record_decision-IsGoverned c

  -- Whatever calls the services take, in whatever order and whichever of them fail, a governed
  -- database stays governed: its constraints on roles, memberships and invitations hold, and every
  -- organization in it, those founded on the way included, has an active owner.
  pub reaches-IsGoverned : (d d' : Db) → IsGoverned d → Reaches d d' → IsGoverned d'
  reaches-IsGoverned d _ g here = g
  reaches-IsGoverned d _ g (step d' c e n r) =
      (perform-IsGoverned c).at e (record { db = d'; step = n }) (reaches-IsGoverned d d' g r)
