-- ===== src/Auth/Sessions.antt =====
-- Sessions and their families: what the table promises, and how a revocation and a rotation change
-- it.
use multi_tenant_authorizati.Base.{
  ◌≡◌, refl, inl, inr, Bool, true, false, ◌&&◌, ◌||◌, not, Option, none, some, List, [], ◌∷◌, arith,
  ◌==◌, if◌then◌else◌, Bool-cases,
}
use multi_tenant_authorizati.Db.Rows.{exists_row, update_rows, first_row, Unique}
use multi_tenant_authorizati.Db.RowLaws.{update-Unique}
use multi_tenant_authorizati.Db.Schema.{Uuid, Time, Digest, Session}
use multi_tenant_authorizati.Auth.Repository.{is_unrevoked, in_family, has_id}

abbrev pub same_refresh : Session → Session → Bool
same_refresh s t = t.refresh_token_hash == s.refresh_token_hash

abbrev pub same_access : Session → Session → Bool
same_access s t = t.access_token_hash == s.access_token_hash

-- Two live sessions of one family.
abbrev both_live : Session → Session → Bool
both_live s t = not s.revoked && is_unrevoked (in_family s.token_family_id) t

-- The two UNIQUE columns, and one live session at most in each token family.
pub record IsValid (ss : List Session) : Type 0 where
  pub unique_refresh : Unique same_refresh ss
  pub unique_access : Unique same_access ss
  pub one_live : Unique both_live ss

abbrev pub revoke_at : Time → Session → Session
revoke_at t s = record s { revoked = true; revoked_at = some t }

module _ (p : Session → Bool) (t : Time) where
  -- `UPDATE sessions SET revoked = true, … WHERE p AND revoked = false`
  abbrev pub revoked_rows : List Session → List Session
  revoked_rows = update_rows (is_unrevoked p) (revoke_at t)

  -- A revocation brings no session to life.
  pub revoke-not-live :
      (q : Session → Bool) (off : (s : Session) → s.revoked ≡ true → q s ≡ false)
      (ss : List Session)
      → exists_row q ss ≡ false
      → exists_row q (revoked_rows ss) ≡ false
  revoke-not-live q off [] h = refl
  revoke-not-live q off (s ∷ ss) h =
      ground (arith, off (revoke_at t s) refl, revoke-not-live q off ss)

  live_off : (x : Session) (s : Session) → s.revoked ≡ true → both_live x s ≡ false
  live_off x s h = ground arith

  revoke-one_live : (ss : List Session) → Unique both_live ss → Unique both_live (revoked_rows ss)
  revoke-one_live [] u = tt
  revoke-one_live (s ∷ ss) u = elim (Bool-cases (is_unrevoked p s)) [
    | inl hit ↦ rw hit (none_live (revoked_rows ss), revoke-one_live ss u.1)
    | inr miss ↦ rw miss (revoke-not-live (both_live s) (live_off s) ss u.0, revoke-one_live ss u.1)
  ]
    where
      none_live : (xs : List Session) → exists_row (both_live (revoke_at t s)) xs ≡ false
      none_live [] = refl
      none_live (x ∷ xs) = none_live xs

  -- Revoking keeps what the table promises.
  pub revoke-IsValid : (ss : List Session) → IsValid ss → IsValid (revoked_rows ss)
  revoke-IsValid ss v = record {
    unique_refresh =
        update-Unique (is_unrevoked p) (revoke_at t) same_refresh (λ x y. refl) (λ x y. refl) ss
          v.unique_refresh;
    unique_access =
        update-Unique (is_unrevoked p) (revoke_at t) same_access (λ x y. refl) (λ x y. refl) ss
          v.unique_access;
    one_live = revoke-one_live ss v.one_live;
  }

  -- Afterwards no session that passes the test is live.
  pub revoke-none_live : (ss : List Session) → exists_row (is_unrevoked p) (revoked_rows ss) ≡ false
  revoke-none_live [] = refl
  revoke-none_live (s ∷ ss) = elim (Bool-cases (is_unrevoked p s)) [
    | inl hit ↦ rw hit (elim (Bool-cases (p (revoke_at t s))) [
      | inl a ↦ rw a (revoke-none_live ss)
      | inr b ↦ rw b (revoke-none_live ss)
    ])
    | inr miss ↦ rw miss (rw miss (revoke-none_live ss))
  ]

-- The session that `SELECT … WHERE q` reads.
abbrev pub session_where : (Session → Bool) → List Session → Option Session
session_where q = first_row (λ (s : Session). if q s then some s else none)

-- A live session that a query finds leaves no room for another of its family.
not_live_with :
    (q : Session → Bool) (x s : Session) (ss : List Session)
    → session_where q ss ≡ some s
    → s.revoked ≡ false
    → exists_row (both_live x) ss ≡ false
    → is_unrevoked (in_family s.token_family_id) x ≡ false
not_live_with q x s [] found live h = cc
not_live_with q x s (y ∷ ss) found live h = ground (arith, not_live_with q x s ss)

-- Revoking the live session of a family leaves none.
pub revoke-family_over :
    (q : Session → Bool) (s : Session) (t : Time) (ss : List Session)
    → Unique both_live ss
    → session_where q ss ≡ some s
    → s.revoked ≡ false
    → exists_row (is_unrevoked (in_family s.token_family_id)) (revoked_rows (has_id s.id) t ss)
      ≡ false
revoke-family_over q s t [] u found live = cc
revoke-family_over q s t (x ∷ ss) u found live = elim (Bool-cases (q x)) [
  | inl hit ↦
      ground (arith, revoke-not-live (has_id s.id) t (both_live x) (λ y r. ground arith) ss u.0)
  | inr miss ↦ ground (arith, revoke-family_over q s t ss u.1, not_live_with q x s ss)
]

-- What a query that does not look at `revoked` finds after a revocation.
pub session_where-revoked :
    (q p : Session → Bool) (t : Time) (ss : List Session)
    → ((x : Session) → q (revoke_at t x) ≡ q x)
    → (s : Session) → session_where q ss ≡ some s
    → session_where q (revoked_rows p t ss) ≡ some (if is_unrevoked p s then revoke_at t s else s)
session_where-revoked q p t [] same s found = cc
session_where-revoked q p t (x ∷ ss) same s found = elim (Bool-cases (q x)) [
  | inl hit ↦ ground (arith, same x)
  | inr miss ↦ ground (arith, same x, session_where-revoked q p t ss same s)
]

pub session_where-passes :
    (q : Session → Bool) (s : Session) (ss : List Session)
    → session_where q ss ≡ some s
    → q s ≡ true
session_where-passes q s [] found = cc
session_where-passes q s (x ∷ ss) found = elim (Bool-cases (q x)) [
  | inl hit ↦ ground arith
  | inr miss ↦ ground (arith, session_where-passes q s ss)
]

-- The test for the key and the two UNIQUE columns of an insert.
abbrev pub is_taken : Uuid → Digest → Digest → Session → Bool
is_taken id refresh access x =
    x.id == id || x.refresh_token_hash == refresh || x.access_token_hash == access

module _ (id : Uuid) (refresh access : Digest) where
  -- A refresh hash that is in use is not that of a new session.
  pub taken-ne :
      (b : Session → Bool) (h : Digest) (r : Session) (ss : List Session)
      → exists_row (is_taken id refresh access) ss ≡ false
      → session_where (λ s. s.refresh_token_hash == h && b s) ss ≡ some r
      → (refresh == h) ≡ false
  taken-ne b h r [] free found = cc
  taken-ne b h r (x ∷ ss) free found = ground (arith, taken-ne b h r ss)

  free_refresh :
      (ss : List Session)
      → exists_row (is_taken id refresh access) ss ≡ false
      → exists_row (λ (x : Session). x.refresh_token_hash == refresh) ss ≡ false
  free_refresh [] free = refl
  free_refresh (x ∷ ss) free = ground (arith, free_refresh ss)

  free_access :
      (ss : List Session)
      → exists_row (is_taken id refresh access) ss ≡ false
      → exists_row (λ (x : Session). x.access_token_hash == access) ss ≡ false
  free_access [] free = refl
  free_access (x ∷ ss) free = ground (arith, free_access ss)

-- A new session keeps what the table promises, if its family has no live one.
pub insert-IsValid :
    (n : Session) (ss : List Session)
    → exists_row (is_taken n.id n.refresh_token_hash n.access_token_hash) ss ≡ false
    → exists_row (is_unrevoked (in_family n.token_family_id)) ss ≡ false
    → n.revoked ≡ false
    → IsValid ss
    → IsValid (n ∷ ss)
insert-IsValid n ss free over live v = record {
  unique_refresh =
      (free_refresh n.id n.refresh_token_hash n.access_token_hash ss free, v.unique_refresh);
  unique_access =
      (free_access n.id n.refresh_token_hash n.access_token_hash ss free, v.unique_access);
  one_live = (rw live over, v.one_live);
}
