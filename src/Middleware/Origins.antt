-- ===== src/Middleware/Origins.antt =====
-- internal/middleware/cors.go: which origins a response is shared with.
use multi_tenant_authorizati.Base.{
  ◌≡◌, ◌≢◌, refl, subst, Bool, true, false, String, List, [], arith, str_eq, eq_iff,
}
use multi_tenant_authorizati.Db.Stored.{Stored, first, later, found_row}
use multi_tenant_authorizati.Middleware.Headers.{is_allowed_origin, origin_headers}

is_allowed_origin_sound :
    (allowed : List String) (origin : String)
    → is_allowed_origin allowed origin ≡ true
    → Stored origin allowed × (str_eq origin "" ≡ false)
unfolding is_allowed_origin
is_allowed_origin_sound allowed origin h =
    let q = found_row (λ (o : String). str_eq o origin) allowed (ground arith) in
    (subst (λ o. Stored o allowed) ((eq_iff q.0 origin).0 q.2) q.1, ground arith)

-- The headers that let another origin read a response are set only for a configured origin, and
-- never for the empty one.
origin_headers-configured :
    (allowed : List String) (origin name value : String)
    → Stored (name, value) (origin_headers (is_allowed_origin allowed origin) origin)
    → Stored origin allowed × (str_eq origin "" ≡ false)
origin_headers-configured allowed origin name value h = go (is_allowed_origin allowed origin) refl h
  where
    nothing_stored : {xs : List (String × String)} → Stored (name, value) xs → xs ≢ []
    nothing_stored first e = cc
    nothing_stored (later s) e = cc

    go :
        (b : Bool)
        → is_allowed_origin allowed origin ≡ b
        → Stored (name, value) (origin_headers b origin)
        → Stored origin allowed × (str_eq origin "" ≡ false)
    go true p s = is_allowed_origin_sound allowed origin p
    go false p s = absurd (nothing_stored s refl)
