-- ===== src/Middleware/Guards.antt =====
-- The two guards of a protected route, and the chain that the router builds of them: a request
-- reaches the handler only with a live session and a permission.
use multi_tenant_authorizati.Base.{
  suc, ◌≡◌, ◌∙◌, refl, sym, ap, ◌⊎◌, inl, inr, true, Option, none, some, arith, Bool-cases, String,
}
use multi_tenant_authorizati.Apperrors.{Result, ok, err}
use multi_tenant_authorizati.Db.Schema.{Uuid, Time, Digest, Session, Db}
use multi_tenant_authorizati.Db.Go.{Env, World}
use multi_tenant_authorizati.Http.{Request, path_value, with_user_id, with_session_id}
use multi_tenant_authorizati.Authz.{allows, check_permission}
use multi_tenant_authorizati.Auth.Repository.{get_active_session_by_access_token_hash}
use multi_tenant_authorizati.Auth.Access.{Accepts, get_active_session-Accepts}
use multi_tenant_authorizati.Middleware.Auth.{
  Handler, authn, authz, bearer_token, authn_token, authenticated, authorize,
}

-- The caller is known, the path names an organization, and the user has the permission there.
abbrev Permitted : (String → Option Uuid) → String → Request → Db → Type 0
Permitted parse key r d =
    (user : Uuid) × (org : Uuid) × (r.context.user_id ≡ some user)
    × (parse (path_value "org_id" r) ≡ some org)
    × (allows user org key d ≡ true)

authorize-guards :
    (key : String) (next next' : Handler) (r : Request) (user org : Option Uuid) (e : Env)
    (w : World)
    → (authorize next r key user org e w ≡ authorize next' r key user org e w)
      ⊎ ((u : Uuid) × (o : Uuid) × (user ≡ some u) × (org ≡ some o) × (allows u o key w.db ≡ true))
unfolding check_permission
authorize-guards key next next' r none org e w = inl refl
authorize-guards key next next' r (some u) none e w = inl refl
authorize-guards key next next' r (some u) (some o) e w = elim (Bool-cases (allows u o key w.db)) [
  | inl granted ↦ inr (u, o, refl, refl, granted)
  | inr denied ↦ inl (ground arith)
]

-- Authz lets a request through only with the permission: without it the response is the same
-- whatever the handler is.
authz-guards :
    (parse : String → Option Uuid) (key : String) (next next' : Handler) (r : Request) (e : Env)
    (w : World)
    → (authz parse key next r e w ≡ authz parse key next' r e w) ⊎ Permitted parse key r w.db
unfolding authz check_permission
authz-guards parse key next next' r e w =
    authorize-guards key next next' r r.context.user_id (parse (path_value "org_id" r)) e w

-- The lookup of a session changes nothing.
lookup-reads :
    (h : Digest) (e : Env) (w : World) → (get_active_session_by_access_token_hash h e w).1.db ≡ w.db
unfolding get_active_session_by_access_token_hash
lookup-reads h e w = ground arith

-- The request carries the bearer token of a live session, and the user of that session has the
-- permission in the organization of the path.
abbrev pub Authorized :
    (String → Digest) → (String → Option Uuid) → String → Request → Time → Db → Type 0
Authorized sha256 parse key r t d =
    (token : String) × (s : Session) × (org : Uuid) × (bearer_token r ≡ some token)
    × Accepts (sha256 token) t s d
    × (parse (path_value "org_id" r) ≡ some org)
    × (allows s.user_id org key d ≡ true)

module _ (sha256 : String → Digest) (parse : String → Option Uuid) (key : String)
    (next next' : Handler) (r : Request) (e : Env) where
  permitted :
      (token : String) (s : Session) (w w' : World)
      → bearer_token r ≡ some token
      → Accepts (sha256 token) (e.clock (suc w.step)) s w.db
      → w'.db ≡ w.db
      → Permitted parse key (with_session_id s.id (with_user_id s.user_id r)) w'.db
      → Authorized sha256 parse key r (e.clock (suc w.step)) w.db
  unfolding path_value
  permitted token s w w' carried accepted same (user, org, known, named, allowed) =
      (token, s, org, carried, accepted, named, ground arith)

  authenticated-guards :
      (token : String) (w : World) (q : Result Session × World)
      → get_active_session_by_access_token_hash (sha256 token) e w ≡ q
      → bearer_token r ≡ some token
      → (authenticated (authz parse key next) r q.0 e q.1
          ≡ authenticated (authz parse key next') r q.0 e q.1)
        ⊎ Authorized sha256 parse key r (e.clock (suc w.step)) w.db
  authenticated-guards token w (err x, w') looked carried = inl refl
  authenticated-guards token w (ok s, w') looked carried =
      elim (authz-guards parse key next next' (with_session_id s.id (with_user_id s.user_id r)) e
        w') [
          | inl same ↦ inl same
          | inr p ↦ inr (
              permitted token s w w' carried
                (get_active_session-Accepts (sha256 token) s e w
                  (ap (λ (x : Result Session × World). x.0) looked))
                (ap (λ (x : Result Session × World). x.1.db) (sym looked)
                  ∙ lookup-reads (sha256 token) e w)
                p)
        ]

  -- Authn and Authz together: a request reaches the handler of a protected route only with the
  -- bearer token of an unrevoked, unexpired session of an active user who has the permission in the
  -- organization of the path. Without one the response, and all that is written, is the same
  -- whatever the handler is.
  pub protected-guards :
      (w : World)
      → (authn sha256 (authz parse key next) r e w ≡ authn sha256 (authz parse key next') r e w)
        ⊎ Authorized sha256 parse key r (e.clock (suc w.step)) w.db
  unfolding authn
  protected-guards w = go (bearer_token r) refl
    where
      go :
          (t : Option String)
          → bearer_token r ≡ t
          → (authn_token sha256 (authz parse key next) r t e w
              ≡ authn_token sha256 (authz parse key next') r t e w)
            ⊎ Authorized sha256 parse key r (e.clock (suc w.step)) w.db
      go none h = inl refl
      go (some token) h =
          authenticated-guards token w (get_active_session_by_access_token_hash (sha256 token) e w)
            refl h
