-- ===== src/Tests/Fixtures.antt =====
-- A small database, surroundings that answer, and a driver without faults of its own.
use multi_tenant_authorizati.Db.Rows.{All}
use multi_tenant_authorizati.Base.{
  ◌+◌, ◌*◌, List, ℕ, ◌≡◌, refl, String, str_eq, Bool, true, false, Option, some, none, [], ◌∷◌,
  if◌then◌else◌, arith, ◌<◌,
}
use multi_tenant_authorizati.Apperrors.{Result, ok, err}
use multi_tenant_authorizati.Db.Schema.{
  Uuid, Digest, User, UserStatus, Organization, OrganizationStatus, OrganizationType, Role,
  RoleKind, Membership, MembershipStatus, Invitation, InviteStatus, Session, Db,
}
use multi_tenant_authorizati.Db.Go.{Go, Env, World}
use multi_tenant_authorizati.Db.Driver.{Driver, Transacted, committed, rolled_back}

abbrev pub salt : List ℕ
salt = 1 ∷ 200 ∷ 37 ∷ []

pub salt_bytes_of : (s : List ℕ) → some salt ≡ some s → All (λ b. b < 256) s
salt_bytes_of s h = ground arith

-- No statement fails, the clock reads 1000, and every random text is the same.
abbrev pub quiet : Env
quiet = record {
  fails = λ _. false;
  clock = λ _. 1000;
  entropy = λ _. some "fresh";
  salt = λ _. some salt;
  salt_bytes = λ n. salt_bytes_of;
  uuid = λ n k. 100 + 10 * n + k;
}

abbrev pub digest : String → Digest
digest s =
    if str_eq s "access"
    then 1
    else (if str_eq s "refresh" then 2 else (if str_eq s "invite" then 4 else 5))

abbrev finish : {A : Type 0} → Db → Result A × World → Result A × World
finish d (ok a, w) = (ok a, w)
finish d (err x, w) = (err x, record w { db = d })

pub plain-Transacted :
    {A : Type 0} (m : Go A) (e : Env) (w : World) (r : Result A × World)
    → m e w ≡ r
    → Transacted m e w (finish w.db r)
plain-Transacted m e w (ok a, w') h = committed w.step w'.step a (cc) (cc)
plain-Transacted m e w (err x, w') h = rolled_back w.step w'.step x (cc) refl

abbrev pub plain : Driver
plain = record {
  begin_func = λ m e w. finish w.db (m e w);
  transacts = λ m e w. plain-Transacted m e w (m e w) refl;
}

-- Organization 1 has the owners 10 and 11 and the member 12; organization 2 is 10's own.
abbrev pub user : Uuid → String → UserStatus → User
user id email status = record {
  id = id;
  email = some email;
  phone = none;
  password_hash = 7 ∷ [];
  first_name = "A";
  last_name = none;
  status = status;
}

abbrev organization : Uuid → OrganizationType → OrganizationStatus → Organization
organization id org_type status = record {
  id = id;
  name = "Acme";
  org_type = org_type;
  slug = none;
  status = status;
  created_at = 1;
  updated_at = 1;
}

abbrev role : Uuid → Option Uuid → String → RoleKind → Role
role id org name kind = record {
  id = id;
  organization_id = org;
  name = name;
  kind = kind;
  is_system = true;
  created_at = 1;
}

abbrev membership : Uuid → Uuid → Uuid → Uuid → Membership
membership id user org role = record {
  id = id;
  user_id = user;
  organization_id = org;
  role_id = role;
  status = MembershipStatus.active;
  joined_at = 1;
}

abbrev pub session : Bool → Session
session revoked = record {
  id = 70;
  user_id = 10;
  token_family_id = 80;
  refresh_token_hash = 2;
  access_token_hash = 1;
  user_agent = "";
  ip_address = "";
  revoked = revoked;
  revoked_at = none;
  access_token_expires_at = 5000;
  refresh_token_expires_at = 9000;
  created_at = 1;
}

abbrev pub invitation : Invitation
invitation = record {
  id = 60;
  organization_id = 1;
  token = 4;
  role_id = 21;
  status = InviteStatus.active;
  created_by = 10;
  expires_at = 2000;
}

abbrev pub database : Bool → Db
database revoked = record {
  users =
      user 10 "a@x.org" UserStatus.active
      ∷ user 11 "b@x.org" UserStatus.active
      ∷ user 12 "c@x.org" UserStatus.active
      ∷ user 13 "d@x.org" UserStatus.active
      ∷ [];
  organizations =
      organization 1 OrganizationType.business OrganizationStatus.active
      ∷ organization 2 OrganizationType.personal OrganizationStatus.active
      ∷ [];
  permissions = record { id = 30; key = "member.view" } ∷ [];
  roles =
      role 20 (some 1) "Owner" RoleKind.owner
      ∷ role 21 (some 1) "Member" RoleKind.member
      ∷ role 22 (some 2) "Owner" RoleKind.owner
      ∷ role 23 none "Owner" RoleKind.owner
      ∷ [];
  role_permissions = record { role_id = 20; permission_id = 30 } ∷ [];
  memberships =
      membership 50 10 1 20
      ∷ membership 51 11 1 20
      ∷ membership 52 12 1 21
      ∷ membership 53 10 2 22
      ∷ [];
  invitations = invitation ∷ [];
  sessions = session revoked ∷ [];
  audit_logs = [];
  authz_decisions = [];
}

abbrev pub world : World
world = record { db = database false; step = 0 }

-- The session has been rotated before.
abbrev pub rotated_world : World
rotated_world = record { db = database true; step = 0 }
