-- ===== src/System/Statements.antt =====
-- The statements of users, sessions and logs leave the organizations governed.
use multi_tenant_authorizati.Base.{◌≡◌, subst, arith}
use multi_tenant_authorizati.Db.Schema.{Uuid, Db}
use multi_tenant_authorizati.Db.Go.{Go, Env, World}
use multi_tenant_authorizati.Db.Driver.{Driver, Transacted-keeps}
use multi_tenant_authorizati.Db.Keeps.{Keeps}
use multi_tenant_authorizati.Db.Ensures.{Ensures}
use multi_tenant_authorizati.Audit.{LogEntry, log, log_best_effort}
use multi_tenant_authorizati.Auth.Repository.{
  NewUser, NewSession, create_user, create_session, create_session_in_family, revoke_session,
  revoke_family, revoke_all_sessions_for_user, revoke_session_if_active,
}
use multi_tenant_authorizati.System.Governed.{IsGoverned}

-- A transaction that ends where `P` holds keeps `P`: if it fails it has changed nothing.
pub Keeps-transaction :
    {A : Type 0} {P : Db → Type 0} (pg : Driver) (m : Go A)
    → Ensures P m (λ _ d. P d)
    → Keeps P (pg.begin_func m)
Keeps-transaction {A} {P} pg m k = record {
  at = λ e w h.
      Transacted-keeps (λ d. P d) m e w h (λ n a done. k.at e _ a h done) (pg.transacts m e w);
}

-- What is kept holds after a success too.
pub Keeps-Ensures : {A : Type 0} {P : Db → Type 0} {m : Go A} → Keeps P m → Ensures P m (λ _ d. P d)
Keeps-Ensures k = record { at = λ e w a p h. k.at e w p }

-- The four tables that the constraints and the owners are read from.
abbrev pub SameTenancy : Db → Db → Type 0
SameTenancy d d' =
    (d.roles ≡ d'.roles)
    × (d.memberships ≡ d'.memberships)
    × (d.invitations ≡ d'.invitations)
    × (d.organizations ≡ d'.organizations)

SameTenancy-IsGoverned : (d d' : Db) → SameTenancy d d' → IsGoverned d → IsGoverned d'
SameTenancy-IsGoverned d d' (roles, memberships, invitations, organizations) g =
    subst IsGoverned
      (λ i. record d' {
        roles = roles i;
        memberships = memberships i;
        invitations = invitations i;
        organizations = organizations i;
      })
      (record {
        valid = record {
          unique_roles = g.valid.unique_roles;
          unique_members = g.valid.unique_members;
          roles_in_org = g.valid.roles_in_org;
          unique_tokens = g.valid.unique_tokens;
          invites_in_org = g.valid.invites_in_org;
        };
        owned = g.owned;
      })

pub untouched :
    {A : Type 0} (m : Go A)
    → ((e : Env) (w : World) → SameTenancy w.db (m e w).1.db)
    → Keeps IsGoverned m
untouched m same = record { at = λ e w g. SameTenancy-IsGoverned w.db (m e w).1.db (same e w) g }

pub create_user-IsGoverned : (u : NewUser) → Keeps IsGoverned (create_user u)
unfolding create_user
create_user-IsGoverned u =
    untouched _ λ e w. (ground arith, ground arith, ground arith, ground arith)

pub create_session-IsGoverned : (s : NewSession) → Keeps IsGoverned (create_session s)
unfolding create_session
create_session-IsGoverned s =
    untouched _ λ e w. (ground arith, ground arith, ground arith, ground arith)

pub create_session_in_family-IsGoverned :
    (family : Uuid) (s : NewSession) → Keeps IsGoverned (create_session_in_family family s)
unfolding create_session_in_family
create_session_in_family-IsGoverned family s =
    untouched _ λ e w. (ground arith, ground arith, ground arith, ground arith)

pub revoke_session-IsGoverned : (id : Uuid) → Keeps IsGoverned (revoke_session id)
unfolding revoke_session
revoke_session-IsGoverned id =
    untouched _ λ e w. (ground arith, ground arith, ground arith, ground arith)

pub revoke_session_if_active-IsGoverned :
    (id : Uuid) → Keeps IsGoverned (revoke_session_if_active id)
unfolding revoke_session_if_active
revoke_session_if_active-IsGoverned id =
    untouched _ λ e w. (ground arith, ground arith, ground arith, ground arith)

pub revoke_family-IsGoverned : (id : Uuid) → Keeps IsGoverned (revoke_family id)
unfolding revoke_family
revoke_family-IsGoverned id =
    untouched _ λ e w. (ground arith, ground arith, ground arith, ground arith)

pub revoke_all-IsGoverned : (user : Uuid) → Keeps IsGoverned (revoke_all_sessions_for_user user)
unfolding revoke_all_sessions_for_user
revoke_all-IsGoverned user =
    untouched _ λ e w. (ground arith, ground arith, ground arith, ground arith)

pub log_best_effort-IsGoverned : (l : LogEntry) → Keeps IsGoverned (log_best_effort l)
unfolding log_best_effort log
log_best_effort-IsGoverned l =
    untouched _ λ e w. (ground arith, ground arith, ground arith, ground arith)
