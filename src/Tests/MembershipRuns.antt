-- ===== src/Tests/MembershipRuns.antt =====
-- Memberships and invitations, at the small database.
use multi_tenant_authorizati.Base.{◌≢◌, ◌<◌, ◌≡◌, refl, false, some, arith, ◌+◌, subst, ◌==◌}
use multi_tenant_authorizati.Apperrors.{ok}
use multi_tenant_authorizati.Db.Schema.{Invitation, Db}
use multi_tenant_authorizati.Membership.Repository.{
  active_owners, role_kind_in, get_member_role_kind, get_role_kind_by_id, count_active_owners,
  remove_member, update_member_role, get_organization_type, create_link_invitation,
  get_active_invitation_by_token_hash, mark_invitation_accepted, create_membership,
  get_invitation_by_id, revoke_invitation,
}
use multi_tenant_authorizati.Membership.Service.{
  remove, assign_role, invite, accept, rotate_invite, remove_tx, assign_role_tx, accept_tx,
  rotate_tx, new_invite_token, invitation_ttl, InviteResult,
}
use multi_tenant_authorizati.Membership.Valid.{IsValid}
use multi_tenant_authorizati.Membership.OwnerOnly.{
  MayRemove, MayAssign, remove-MayRemove, assign_role-MayAssign,
}
use multi_tenant_authorizati.Membership.Invitations.{Redeemed, accept-Redeemed}
use multi_tenant_authorizati.Membership.Issue.{MayInvite, MayRotate, Issued, Closed}
use multi_tenant_authorizati.Membership.Grants.{invite-Issued, rotate_invite-Issued}
use multi_tenant_authorizati.Membership.System.{
  remove_member as remove_call, invite_member, perform,
}
use multi_tenant_authorizati.Membership.Once.{DrawsOthers, ReachesApart, accept-Spent_forever}
use multi_tenant_authorizati.Authz.{allows}
use multi_tenant_authorizati.Membership.Isolation.{perform-isolates}
use multi_tenant_authorizati.Db.Atomic.{Atomic}
use multi_tenant_authorizati.Tests.Fixtures.{quiet, digest, plain, database, world}

pub database-IsValid : IsValid (database false)
database-IsValid = record {
  unique_roles = (refl, (refl, (refl, (refl, tt))));
  unique_members = (refl, (refl, (refl, (refl, tt))));
  roles_in_org = (refl, (refl, (refl, (refl, tt))));
  unique_tokens = (refl, tt);
  invites_in_org = (refl, tt);
}

has_owner : 0 < active_owners 1 (database false)
has_owner = omega arith

removed : (remove plain 1 10 11 quiet world).0 ≡ ok tt
unfolding remove remove_tx get_member_role_kind count_active_owners remove_member
removed = refl

remove-MayRemove_example : MayRemove 1 10 11 (database false)
remove-MayRemove_example = remove-MayRemove plain 1 10 11 quiet world removed

demoted : (assign_role plain 1 10 11 21 quiet world).0 ≡ ok tt
unfolding assign_role assign_role_tx get_role_kind_by_id get_member_role_kind count_active_owners
    update_member_role
demoted = refl

assign_role-MayAssign_example :
    (new : _) × (role_kind_in 1 21 (database false) ≡ some new)
    × MayAssign new 1 10 11 (database false)
assign_role-MayAssign_example = assign_role-MayAssign plain 1 10 11 21 quiet world demoted

accepted : (accept digest plain 13 "invite" quiet world).0 ≡ ok 1
unfolding accept accept_tx get_active_invitation_by_token_hash mark_invitation_accepted
    create_membership
accepted = refl

accept-Redeemed_example :
    Redeemed 4 13 1 (database false) (accept digest plain 13 "invite" quiet world).1.db
accept-Redeemed_example =
    accept-Redeemed digest plain 13 "invite" 1 quiet world database-IsValid accepted

abbrev issued : InviteResult
issued = record { token = "fresh"; expires_at = 1000 + invitation_ttl }

invited : (invite digest 1 10 20 quiet world).0 ≡ ok issued
unfolding invite get_organization_type get_role_kind_by_id get_member_role_kind new_invite_token
    create_link_invitation
invited = refl

invite-Issued_example :
    MayInvite 1 10 20 (database false)
    × Issued 5 1 20 (1000 + invitation_ttl) (invite digest 1 10 20 quiet world).1.db
invite-Issued_example = invite-Issued digest 1 10 20 issued quiet world invited

rotated : (rotate_invite digest plain 1 10 60 quiet world).0 ≡ ok issued
unfolding rotate_invite rotate_tx get_invitation_by_id get_role_kind_by_id get_member_role_kind
    new_invite_token revoke_invitation create_link_invitation
rotated = refl

rotate_invite-Issued_example :
    (i : Invitation) × MayRotate 1 10 60 i (database false)
    × Issued 5 1 i.role_id
        (1000 + invitation_ttl)
        (rotate_invite digest plain 1 10 60 quiet world).1.db
    × Closed i.id (rotate_invite digest plain 1 10 60 quiet world).1.db
rotate_invite-Issued_example = rotate_invite-Issued digest plain 1 10 60 issued quiet world rotated

perform-isolates_example :
    allows 10 2 "member.view" (perform digest plain (remove_call 1 11 10) quiet world).1.db
    ≡ allows 10 2 "member.view" (database false)
perform-isolates_example =
    perform-isolates digest plain (remove_call 1 11 10) 1 2 10 "member.view" quiet world refl refl

-- Between the two uses of a token, another invitation is issued.
quiet-DrawsOthers : DrawsOthers digest 4 quiet
quiet-DrawsOthers k raw drawn =
    let same : "fresh" ≡ raw = ground arith in subst (λ r. (digest r == 4) ≡ false) same refl

abbrev joined_db : Db
joined_db = (accept digest plain 13 "invite" quiet world).1.db

abbrev reissued : Db
reissued =
    (perform digest plain (invite_member 1 10 20) quiet (record { db = joined_db; step = 30 })).1.db

accept-Spent_forever_example :
    (accept digest plain 12 "invite" quiet (record { db = reissued; step = 60 })).0 ≢ ok 1
accept-Spent_forever_example =
    accept-Spent_forever digest plain 13 12 "invite" 1 1 quiet quiet world 60 reissued
      database-IsValid accepted
      (ReachesApart.step joined_db (invite_member 1 10 20) quiet 30 quiet-DrawsOthers
        ReachesApart.here)
