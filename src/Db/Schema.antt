-- ===== src/Db/Schema.antt =====
-- The tables of migrations/000001_init_schema.up.sql. A UUID is the number that it spells, a time
-- the nanoseconds since the epoch, a token hash the number of its hex digits.
use multi_tenant_authorizati.Base.{ℕ, String, Bool, true, false, Option, List}

abbrev pub Uuid : Type 0
Uuid = ℕ

abbrev pub Time : Type 0
Time = ℕ

abbrev pub Digest : Type 0
Digest = ℕ

pub data UserStatus : Type 0 where
  active suspended deleted : UserStatus

pub record User : Type 0 where
  pub id : Uuid
  pub email : Option String
  pub phone : Option String
  -- the runes of the text
  pub password_hash : List ℕ
  pub first_name : String
  pub last_name : Option String
  pub status : UserStatus

pub data OrganizationStatus : Type 0 where
  active suspended deleted : OrganizationStatus

pub data OrganizationType : Type 0 where
  personal business : OrganizationType

pub record Organization : Type 0 where
  pub id : Uuid
  pub name : String
  pub org_type : OrganizationType
  pub slug : Option String
  pub status : OrganizationStatus
  pub created_at : Time
  pub updated_at : Time

pub record Permission : Type 0 where
  pub id : Uuid
  pub key : String

pub data RoleKind : Type 0 where
  owner admin member viewer custom : RoleKind

-- An `organization_id` of none is a system-wide template.
pub record Role : Type 0 where
  pub id : Uuid
  pub organization_id : Option Uuid
  pub name : String
  pub kind : RoleKind
  pub is_system : Bool
  pub created_at : Time

pub record RolePermission : Type 0 where
  pub role_id : Uuid
  pub permission_id : Uuid

pub data MembershipStatus : Type 0 where
  active invited suspended : MembershipStatus

pub record Membership : Type 0 where
  pub id : Uuid
  pub user_id : Uuid
  pub organization_id : Uuid
  pub role_id : Uuid
  pub status : MembershipStatus
  pub joined_at : Time

pub data InviteStatus : Type 0 where
  active revoked accepted expired : InviteStatus

-- The program inserts rows of invite_type 'link' only, which have a token and no email.
pub record Invitation : Type 0 where
  pub id : Uuid
  pub organization_id : Uuid
  pub token : Digest
  pub role_id : Uuid
  pub status : InviteStatus
  pub created_by : Uuid
  pub expires_at : Time

pub record Session : Type 0 where
  pub id : Uuid
  pub user_id : Uuid
  pub token_family_id : Uuid
  pub refresh_token_hash : Digest
  pub access_token_hash : Digest
  pub user_agent : String
  pub ip_address : String
  pub revoked : Bool
  pub revoked_at : Option Time
  pub access_token_expires_at : Time
  pub refresh_token_expires_at : Time
  pub created_at : Time

pub record AuditLog : Type 0 where
  pub id : Uuid
  pub organization_id : Option Uuid
  pub user_id : Option Uuid
  pub action : String
  pub entity_type : String
  pub entity_id : Option Uuid
  -- a JSON object of texts and identifiers
  pub metadata : List (String × Uuid)
  pub ip_address : String
  pub user_agent : String
  pub created_at : Time

pub record AuthzDecision : Type 0 where
  pub id : Uuid
  pub organization_id : Uuid
  pub user_id : Uuid
  pub permission_key : String
  pub allowed : Bool
  pub reason : String
  pub created_at : Time

pub record Db : Type 0 where
  pub users : List User
  pub organizations : List Organization
  pub permissions : List Permission
  pub roles : List Role
  pub role_permissions : List RolePermission
  pub memberships : List Membership
  pub invitations : List Invitation
  pub sessions : List Session
  pub audit_logs : List AuditLog
  pub authz_decisions : List AuthzDecision

abbrev pub user_active : UserStatus → Bool
user_active UserStatus.active = true
user_active _ = false

abbrev pub org_active : OrganizationStatus → Bool
org_active OrganizationStatus.active = true
org_active _ = false

abbrev pub org_deleted : OrganizationStatus → Bool
org_deleted OrganizationStatus.deleted = true
org_deleted _ = false

abbrev pub is_personal : OrganizationType → Bool
is_personal personal = true
is_personal business = false

abbrev pub member_active : MembershipStatus → Bool
member_active MembershipStatus.active = true
member_active _ = false

abbrev pub invite_active : InviteStatus → Bool
invite_active InviteStatus.active = true
invite_active _ = false

abbrev pub kind_eq : RoleKind → RoleKind → Bool
kind_eq owner owner = true
kind_eq admin admin = true
kind_eq member member = true
kind_eq viewer viewer = true
kind_eq custom custom = true
kind_eq _ _ = false

abbrev pub is_owner : RoleKind → Bool
is_owner owner = true
is_owner _ = false
