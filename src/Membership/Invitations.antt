-- ===== src/Membership/Invitations.antt =====
-- The life of an invitation: Invite issues it, Accept redeems it once, RotateInvite replaces it.
use multi_tenant_authorizati.Base.{
  ◌≢◌, ◌≡◌, refl, sym, subst, ap, inl, inr, Bool, true, false, ◌&&◌, ◌==◌, Option, none, some, List,
  [], ◌∷◌, arith, String, Bool-cases, if◌then◌else◌, ltb,
}
use multi_tenant_authorizati.Apperrors.{ok, invalid_token}
use multi_tenant_authorizati.Db.Rows.{exists_row, update_rows, first_row, Unique}
use multi_tenant_authorizati.Db.Schema.{
  Uuid, Digest, Membership, Invitation, InviteStatus, Db, invite_active, member_active,
}
use multi_tenant_authorizati.Db.Go.{Env, World}
use multi_tenant_authorizati.Db.Driver.{Driver}
use multi_tenant_authorizati.Db.Ensures.{
  Ensures, Ensures-bind, Ensures-raise_if, Ensures-weaken, Ensures-assume, Ensures-begin_func,
  Ensures-now, Ensures-pure, Ensures-frame,
}
use multi_tenant_authorizati.Membership.Repository.{
  get_active_invitation_by_token_hash, has_active_token, in_active_org, active_invitation,
  is_active_invite, is_member, create_membership, mark_invitation_accepted,
}
use multi_tenant_authorizati.Membership.Service.{accept_tx, accept}
use multi_tenant_authorizati.Membership.Guards.{get_active_invitation_by_token_hash-Ensures}
use multi_tenant_authorizati.Membership.Valid.{IsValid, same_token}

-- The rows after one of the two updates of a status.
abbrev pub closed : InviteStatus → Uuid → List Invitation → List Invitation
closed s id = update_rows (is_active_invite id) (λ (i : Invitation). record i { status = s })

abbrev invitation_where : (Invitation → Bool) → List Invitation → Option Invitation
invitation_where q = first_row (λ (i : Invitation). if q i then some i else none)

module _ (s : InviteStatus) (done : invite_active s ≡ false) where
  -- Closing brings no invitation to life.
  pub closed-absent :
      (q : Invitation → Bool)
      (off : (i : Invitation) → invite_active i.status ≡ false → q i ≡ false) (id : Uuid)
      (is : List Invitation)
      → exists_row q is ≡ false
      → exists_row q (closed s id is) ≡ false
  closed-absent q off id [] h = refl
  closed-absent q off id (i ∷ is) h =
      ground (arith, off (record i { status = s }) done, closed-absent q off id is)

  absent_at :
      (i j : Invitation) (is : List Invitation) (b : Invitation → Bool) (token : Digest)
      → exists_row (same_token j) is ≡ false
      → invitation_where (λ x. has_active_token token x && b x) is ≡ some i
      → has_active_token token j ≡ false
  absent_at i j [] b token h found = cc
  absent_at i j (x ∷ is) b token h found = ground (arith, absent_at i j is b token)

  alone :
      (token : Digest) (x : Invitation) (is : List Invitation)
      → has_active_token token x ≡ true
      → exists_row (same_token x) is ≡ false
      → exists_row (has_active_token token) is ≡ false
  alone token x [] h u = refl
  alone token x (i ∷ is) h u = ground (arith, alone token x is)

  -- One active invitation at most has a token; once it is closed none has.
  closed-spent :
      (token : Digest) (b : Invitation → Bool) (i : Invitation) (is : List Invitation)
      → Unique same_token is
      → invitation_where (λ x. has_active_token token x && b x) is ≡ some i
      → exists_row (has_active_token token) (closed s i.id is) ≡ false
  closed-spent token b i [] u found = cc
  closed-spent token b i (x ∷ is) u found = elim (Bool-cases (has_active_token token x && b x)) [
    | inl hit ↦ ground (
      arith,
      closed-absent (has_active_token token) (λ j h. ground arith) i.id is
          (alone token x is (ground arith) u.0),
    )
    | inr miss ↦ ground (arith, absent_at i x is b token u.0, closed-spent token b i is u.1)
  ]

-- No invitation of the token, in whatever organization, is found.
no_invitation :
    (token : Digest) (b : Invitation → Bool) (is : List Invitation)
    → exists_row (has_active_token token) is ≡ false
    → invitation_where (λ x. has_active_token token x && b x) is ≡ none
no_invitation token b [] h = refl
no_invitation token b (i ∷ is) h = ground (arith, no_invitation token b is)

-- The membership that an invitation is for.
abbrev joined : Invitation → Uuid → Membership → Bool
joined i user m =
    is_member i.organization_id user m && m.role_id == i.role_id && member_active m.status

-- The invitation of `token` has been redeemed by `user`: it was active, its organization has the
-- new member, in the role that it names, and nobody can redeem the token again.
abbrev pub Redeemed : Digest → Uuid → Uuid → Db → Db → Type 0
Redeemed token user org d₀ d =
    (i : Invitation) × (active_invitation token d₀ ≡ some i)
    × (org ≡ i.organization_id)
    × (exists_row (joined i user) d.memberships ≡ true)
    × (active_invitation token d ≡ none)

create_membership-joined :
    (i : Invitation) (user : Uuid) (is : List Invitation)
    → Ensures
        (λ d. d.invitations ≡ is)
        (create_membership i.organization_id user i.role_id)
        (λ _ d. (d.invitations ≡ is) × (exists_row (joined i user) d.memberships ≡ true))
unfolding create_membership
create_membership-joined i user is = record { at = λ e w a p h. ground arith }

mark-closed :
    (i : Invitation) (is : List Invitation)
    → Ensures
        (λ d. d.invitations ≡ is)
        (mark_invitation_accepted i.id)
        (λ _ d. d.invitations ≡ closed InviteStatus.accepted i.id is)
unfolding mark_invitation_accepted
mark-closed i is = record { at = λ e w a p h. ground arith }

accept_tx-Ensures :
    (i : Invitation) (user : Uuid) (is : List Invitation)
    → Ensures
        (λ d. d.invitations ≡ is)
        (accept_tx i user)
        (λ _ d.
          (d.invitations ≡ closed InviteStatus.accepted i.id is)
          × (exists_row (joined i user) d.memberships ≡ true))
unfolding accept_tx
accept_tx-Ensures i user is = Ensures-bind (mark-closed i is) λ _. create_membership-joined i user _

-- No active invitation has the token.
abbrev pub Spent : Digest → Db → Type 0
Spent token d = exists_row (has_active_token token) d.invitations ≡ false

redeemed :
    (d₀ : Db) (token : Digest) (user : Uuid) (i : Invitation) (org : Uuid) (d : Db)
    → IsValid d₀
    → ((active_invitation token d₀ ≡ some i)
        × ((d.invitations ≡ closed InviteStatus.accepted i.id d₀.invitations)
            × (exists_row (joined i user) d.memberships ≡ true)))
      × (org ≡ i.organization_id)
    → Redeemed token user org d₀ d × Spent token d
redeemed d₀ token user i org d v q =
    let spent : Spent token d =
      subst (λ is. exists_row (has_active_token token) is ≡ false) (sym q.0.1.0)
        (closed-spent InviteStatus.accepted refl token (in_active_org d₀) i d₀.invitations
          v.unique_tokens q.0.0) in
    ((i, q.0.0, q.1, q.0.1.1, no_invitation token (in_active_org d) d.invitations spent), spent)

module _ (sha256 : String → Digest) (pg : Driver) where
  not_found :
      (user : Uuid) (raw : String) (org : Uuid) (e : Env) (w : World)
      → active_invitation (sha256 raw) w.db ≡ none
      → (accept sha256 pg user raw e w).0 ≢ ok org
  unfolding accept get_active_invitation_by_token_hash
  not_found user raw org e w missing done = ground arith

  accept_effects :
      (user : Uuid) (raw : String) (org : Uuid) (e : Env) (w : World)
      → IsValid w.db
      → (accept sha256 pg user raw e w).0 ≡ ok org
      → Redeemed (sha256 raw) user org w.db (accept sha256 pg user raw e w).1.db
        × Spent (sha256 raw) (accept sha256 pg user raw e w).1.db
  unfolding accept
  accept_effects user raw org e w v h =
      (Ensures-bind {P = λ d. d ≡ w.db}
          {Q = λ o d. Redeemed (sha256 raw) user o w.db d × Spent (sha256 raw) d}
          (get_active_invitation_by_token_hash-Ensures (sha256 raw))
          λ i. Ensures-bind Ensures-now λ t.
            Ensures-bind (Ensures-raise_if (ltb i.expires_at t) invalid_token) λ _.
              Ensures-assume
                {R = λ d.
                  (active_invitation (sha256 raw) w.db ≡ some i)
                  × (d.invitations ≡ w.db.invitations)}
                (λ d q. (
                  subst (λ x. active_invitation (sha256 raw) x ≡ some i) q.0.0 q.0.1,
                  ap (λ (x : Db). x.invitations) q.0.0,
                ))
                (Ensures-bind
                  (Ensures-frame
                    (Ensures-begin_func pg (accept_tx-Ensures i user w.db.invitations)))
                  λ _.
                    Ensures-weaken (λ o d q. redeemed w.db (sha256 raw) user i o d v q)
                      (Ensures-pure i.organization_id))).at
        e w org refl h

  -- In a valid database, a call of Accept that succeeds has redeemed an active invitation of the
  -- token: it returns the organization of the invitation, the user is an active member there in the
  -- role that it names, and the token resolves to no invitation any more.
  pub accept-Redeemed :
      (user : Uuid) (raw : String) (org : Uuid) (e : Env) (w : World)
      → IsValid w.db
      → (accept sha256 pg user raw e w).0 ≡ ok org
      → Redeemed (sha256 raw) user org w.db (accept sha256 pg user raw e w).1.db
  accept-Redeemed user raw org e w v h = (accept_effects user raw org e w v h).0

  pub accept-Spent :
      (user : Uuid) (raw : String) (org : Uuid) (e : Env) (w : World)
      → IsValid w.db
      → (accept sha256 pg user raw e w).0 ≡ ok org
      → Spent (sha256 raw) (accept sha256 pg user raw e w).1.db
  accept-Spent user raw org e w v h = (accept_effects user raw org e w v h).1

  -- A token that no active invitation has is refused.
  pub accept-refuses :
      (user : Uuid) (raw : String) (org : Uuid) (e : Env) (w : World)
      → Spent (sha256 raw) w.db
      → (accept sha256 pg user raw e w).0 ≢ ok org
  accept-refuses user raw org e w spent =
      not_found user raw org e w
        (no_invitation (sha256 raw) (in_active_org w.db) w.db.invitations spent)
