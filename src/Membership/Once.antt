-- ===== src/Membership/Once.antt =====
-- An invitation that was redeemed stays redeemed, whatever calls the service takes afterwards.
use multi_tenant_authorizati.Base.{
  ℕ, ◌+◌, suc, ◌≡◌, ◌≢◌, refl, false, ◌==◌, Bool, String, arith, Option, some, none,
}
use multi_tenant_authorizati.Apperrors.{Result, ok, err}
use multi_tenant_authorizati.Db.Schema.{Uuid, Time, Digest, RoleKind, Invitation, InviteStatus, Db}
use multi_tenant_authorizati.Db.Go.{Go, Env, World, ◌>>=◌}
use multi_tenant_authorizati.Db.Driver.{Driver, Transacted-keeps}
use multi_tenant_authorizati.Db.Keeps.{
  Keeps, keeps_rules, Keeps-query_row, Keeps-raise_if, Keeps-now, Keeps-pure, Keeps-bind,
}
use multi_tenant_authorizati.Membership.Repository.{
  has_active_token, create_membership, create_link_invitation, revoke_invitation,
  mark_invitation_accepted, remove_member, update_member_role, get_member_role_kind,
  get_role_kind_by_id, get_organization_type, organization_status, count_active_owners,
  get_active_invitation_by_token_hash, get_invitation_by_id,
}
use multi_tenant_authorizati.Membership.Service.{
  remove_tx, assign_role_tx, leave_tx, accept_tx, rotate_tx, remove, assign_role, leave, invite,
  accept, rotate_invite, new_invite_token, invitation_ttl, when, require_owner_actor,
}
use multi_tenant_authorizati.Membership.Valid.{IsValid}
use multi_tenant_authorizati.Membership.Invitations.{
  Spent, closed-absent, accept-Spent, accept-refuses,
}
use multi_tenant_authorizati.Membership.System.{
  Call, remove_member as remove_call, assign_member_role, leave_org, invite_member, accept_invite,
  replace_invite, perform,
}

module _ (token : Digest) where
  remove_member-Spent : (org user : Uuid) → Keeps (Spent token) (remove_member org user)
  unfolding remove_member
  remove_member-Spent org user = record { at = λ e w h. ground arith }

  update_member_role-Spent :
      (org user r : Uuid) → Keeps (Spent token) (update_member_role org user r)
  unfolding update_member_role
  update_member_role-Spent org user r = record { at = λ e w h. ground arith }

  create_membership-Spent : (org user r : Uuid) → Keeps (Spent token) (create_membership org user r)
  unfolding create_membership
  create_membership-Spent org user r = record { at = λ e w h. ground arith }

  revoke_invitation-Spent : (id : Uuid) → Keeps (Spent token) (revoke_invitation id)
  unfolding revoke_invitation
  revoke_invitation-Spent id = record {
    at = λ e w h. ground (
      arith,
      closed-absent InviteStatus.revoked refl (has_active_token token) (λ i off. ground arith) id
          w.db.invitations h,
    );
  }

  mark_invitation_accepted-Spent : (id : Uuid) → Keeps (Spent token) (mark_invitation_accepted id)
  unfolding mark_invitation_accepted
  mark_invitation_accepted-Spent id = record {
    at = λ e w h. ground (
      arith,
      closed-absent InviteStatus.accepted refl (has_active_token token) (λ i off. ground arith) id
          w.db.invitations h,
    );
  }

  create_link_invitation-Spent :
      (org r creator : Uuid) (other : Digest) (expires : Time)
      → (other == token) ≡ false
      → Keeps (Spent token) (create_link_invitation org r creator other expires)
  unfolding create_link_invitation
  create_link_invitation-Spent org r creator other expires differs = record {
    at = λ e w h. ground arith;
  }

ruleset spent_rules = (
  keeps_rules, remove_member-Spent, update_member_role-Spent, create_membership-Spent,
  revoke_invitation-Spent, mark_invitation_accepted-Spent,
)

module _ (token : Digest) where
  remove_tx-Spent : (org actor target : Uuid) → Keeps (Spent token) (remove_tx org actor target)
  unfolding remove_tx get_member_role_kind count_active_owners
  remove_tx-Spent org actor target = search spent_rules depth 9

  assign_role_tx-Spent :
      (k : RoleKind) (org actor target r : Uuid)
      → Keeps (Spent token) (assign_role_tx k org actor target r)
  unfolding assign_role_tx get_member_role_kind count_active_owners
  assign_role_tx-Spent k org actor target r = search spent_rules depth 9

  leave_tx-Spent : (org user : Uuid) → Keeps (Spent token) (leave_tx org user)
  unfolding leave_tx get_member_role_kind count_active_owners organization_status
  leave_tx-Spent org user = search spent_rules depth 9

  accept_tx-Spent : (inv : Invitation) (user : Uuid) → Keeps (Spent token) (accept_tx inv user)
  unfolding accept_tx
  accept_tx-Spent inv user = search spent_rules

  rotate_tx-Spent :
      (inv : Invitation) (org actor : Uuid) (other : Digest) (expires : Time)
      → (other == token) ≡ false
      → Keeps (Spent token) (rotate_tx inv org actor other expires)
  unfolding rotate_tx
  rotate_tx-Spent inv org actor other expires differs =
      Keeps-bind _ _ (revoke_invitation-Spent token inv.id)
        λ _. create_link_invitation-Spent token org inv.role_id actor other expires differs

  get_organization_type-Spent : (org : Uuid) → Keeps (Spent token) (get_organization_type org)
  unfolding get_organization_type
  get_organization_type-Spent org = Keeps-query_row _ _

  get_role_kind_by_id-Spent : (org r : Uuid) → Keeps (Spent token) (get_role_kind_by_id org r)
  unfolding get_role_kind_by_id
  get_role_kind_by_id-Spent org r = Keeps-query_row _ _

  get_invitation_by_id-Spent : (org id : Uuid) → Keeps (Spent token) (get_invitation_by_id org id)
  unfolding get_invitation_by_id
  get_invitation_by_id-Spent org id = Keeps-query_row _ _

  when_owner-Spent :
      (b : Bool) (org actor : Uuid) → Keeps (Spent token) (when b (require_owner_actor org actor))
  unfolding get_member_role_kind
  when_owner-Spent b org actor = search keeps_rules depth 7

-- In the surroundings `e`, `m` keeps `P`.
record KeepsIn {A : Type 0} (e : Env) (P : Db → Type 0) (m : Go A) : Type 0 where
  at : (w : World) → P w.db → P (m e w).1.db

module _ {P : Db → Type 0} {e : Env} where
  KeepsIn-Keeps : {A : Type 0} {m : Go A} → Keeps P m → KeepsIn e P m
  KeepsIn-Keeps k = record { at = λ w p. k.at e w p }

  KeepsIn-bind :
      {A B : Type 0} {m : Go A} {f : A → Go B}
      → KeepsIn e P m
      → ((a : A) → KeepsIn e P (f a))
      → KeepsIn e P (m >>= f)
  KeepsIn-bind {A} {B} {m} {f} km kf = record { at = λ w p. go (m e w) (km.at w p) }
    where
      go :
          (r : Result A × World)
          → P r.1.db
          → P (elim r.0 as (λ _. Result B × World) [ ok a ↦ f a e r.1 | err x ↦ (err x, r.1) ]).1.db
      go (ok a, w) p = (kf a).at w p
      go (err x, w) p = p

  -- What follows a draw may rely on it.
  KeepsIn-draw :
      {B : Type 0} {f : String → Go B}
      → ((k : ℕ) (raw : String) → e.entropy k ≡ some raw → KeepsIn e P (f raw))
      → KeepsIn e P (new_invite_token >>= f)
  unfolding new_invite_token
  KeepsIn-draw {B} {f} next = record { at = λ w p. go w (e.entropy w.step) refl p }
    where
      go :
          (w : World) (o : Option String)
          → e.entropy w.step ≡ o
          → P w.db
          → P ((new_invite_token >>= f) e w).1.db
      go w none drawn p = rw drawn p
      go w (some raw) drawn p =
          rw drawn ((next w.step raw drawn).at (record w { step = suc w.step }) p)

  KeepsIn-begin_func :
      {A : Type 0} (pg : Driver) (m : Go A) → KeepsIn e P m → KeepsIn e P (pg.begin_func m)
  KeepsIn-begin_func pg m k = record {
    at = λ w p. Transacted-keeps P m e w p (λ n a _. k.at _ p) (pg.transacts m e w);
  }

-- No token that is drawn has this digest.
abbrev pub DrawsOthers : (String → Digest) → Digest → Env → Type 0
DrawsOthers sha256 token e =
    (k : ℕ) (raw : String) → e.entropy k ≡ some raw → (sha256 raw == token) ≡ false

module _ (sha256 : String → Digest) (pg : Driver) (token : Digest) where
  invite-Spent :
      (org inviter r : Uuid) (e : Env)
      → DrawsOthers sha256 token e
      → KeepsIn e (Spent token) (invite sha256 org inviter r)
  unfolding invite
  invite-Spent org inviter r e others =
      KeepsIn-bind (KeepsIn-Keeps (get_organization_type-Spent token org)) λ t.
        KeepsIn-bind (KeepsIn-Keeps (Keeps-raise_if _ _)) λ _.
          KeepsIn-bind (KeepsIn-Keeps (get_role_kind_by_id-Spent token org r)) λ kind.
            KeepsIn-bind (KeepsIn-Keeps (when_owner-Spent token _ org inviter)) λ _.
              KeepsIn-draw λ k raw drawn. KeepsIn-bind (KeepsIn-Keeps Keeps-now) λ now.
                KeepsIn-bind
                  (KeepsIn-Keeps (
                    create_link_invitation-Spent token org r inviter (sha256 raw)
                      (now + invitation_ttl) (others k raw drawn)))
                  λ _.
                    KeepsIn-Keeps
                      (Keeps-pure (record { token = raw; expires_at = now + invitation_ttl }))

  rotate_invite-Spent :
      (org actor id : Uuid) (e : Env)
      → DrawsOthers sha256 token e
      → KeepsIn e (Spent token) (rotate_invite sha256 pg org actor id)
  unfolding rotate_invite
  rotate_invite-Spent org actor id e others =
      KeepsIn-bind (KeepsIn-Keeps (get_invitation_by_id-Spent token org id)) λ i.
        KeepsIn-bind (KeepsIn-Keeps (get_role_kind_by_id-Spent token org i.role_id)) λ kind.
          KeepsIn-bind (KeepsIn-Keeps (when_owner-Spent token _ org actor)) λ _.
            KeepsIn-draw λ k raw drawn. KeepsIn-bind (KeepsIn-Keeps Keeps-now) λ now.
              KeepsIn-bind
                (KeepsIn-begin_func pg (rotate_tx i org actor (sha256 raw) (now + invitation_ttl)) (
                  KeepsIn-Keeps (
                    rotate_tx-Spent token i org actor (sha256 raw) (now + invitation_ttl)
                      (others k raw drawn))))
                λ _.
                  KeepsIn-Keeps
                    (Keeps-pure (record { token = raw; expires_at = now + invitation_ttl }))

  perform-Spent :
      (c : Call) (e : Env)
      → DrawsOthers sha256 token e
      → KeepsIn e (Spent token) (perform sha256 pg c)
  unfolding perform remove assign_role leave accept get_role_kind_by_id
      get_active_invitation_by_token_hash
  perform-Spent (remove_call org actor target) e others =
      KeepsIn-Keeps (search (keeps_rules, remove_tx-Spent token org actor target))
  perform-Spent (assign_member_role org actor target r) e others =
      KeepsIn-Keeps (search (keeps_rules, assign_role_tx-Spent))
  perform-Spent (leave_org org user) e others =
      KeepsIn-Keeps (search (keeps_rules, leave_tx-Spent token org user))
  perform-Spent (invite_member org inviter r) e others =
      KeepsIn-bind (invite-Spent org inviter r e others) λ _. KeepsIn-Keeps (Keeps-pure _)
  perform-Spent (accept_invite user raw) e others =
      KeepsIn-Keeps (search (keeps_rules, accept_tx-Spent) depth 11)
  perform-Spent (replace_invite org actor id) e others =
      KeepsIn-bind (rotate_invite-Spent org actor id e others) λ _. KeepsIn-Keeps (Keeps-pure _)

  -- The databases that calls lead to, in which no other invitation draws the token.
  pub data ReachesApart (d : Db) : Db → Type 0 where
    here : ReachesApart d d
    step :
        (d' : Db) (c : Call) (e : Env) (n : ℕ)
        → DrawsOthers sha256 token e
        → ReachesApart d d'
        → ReachesApart d (perform sha256 pg c e (record { db = d'; step = n })).1.db

  reaches-Spent : (d d' : Db) → Spent token d → ReachesApart d d' → Spent token d'
  reaches-Spent d _ h here = h
  reaches-Spent d _ h (step d' c e n others r) =
      (perform-Spent c e others).at (record { db = d'; step = n }) (reaches-Spent d d' h r)

module _ (sha256 : String → Digest) (pg : Driver) where
  -- In a valid database, an invitation is good for one call of Accept: once a call has succeeded,
  -- no later call with the same token does, whoever makes it, whatever calls the membership
  -- service takes in between and whichever of them fail, if none of these draws a new token with
  -- the same digest.
  pub accept-Spent_forever :
      (user user' : Uuid) (raw : String) (org org' : Uuid) (e e' : Env) (w : World) (n : ℕ) (d : Db)
      → IsValid w.db
      → (accept sha256 pg user raw e w).0 ≡ ok org
      → ReachesApart sha256 pg (sha256 raw) (accept sha256 pg user raw e w).1.db d
      → (accept sha256 pg user' raw e' (record { db = d; step = n })).0 ≢ ok org'
  accept-Spent_forever user user' raw org org' e e' w n d v done reaches =
      accept-refuses sha256 pg user' raw org' e' (record { db = d; step = n })
        (reaches-Spent sha256 pg (sha256 raw) (accept sha256 pg user raw e w).1.db d
          (accept-Spent sha256 pg user raw org e w v done) reaches)
