-- ===== src/Middleware/Secured.antt =====
-- The stack of cmd/main.go: what every response of the API carries, panics and preflights included.
use multi_tenant_authorizati.Base.{
  ◌≡◌, refl, ◌∙◌, ap, sym, subst, inl, inr, Bool, true, false, Option, none, some, String, List, [],
  ◌∷◌, ◌++◌, str_eq, if◌then◌else◌, Bool-cases,
}
use multi_tenant_authorizati.Apperrors.{ok}
use multi_tenant_authorizati.Db.Rows.{All}
use multi_tenant_authorizati.Db.RowLaws.{map-All}
use multi_tenant_authorizati.Db.Go.{Go, Env, World, pure}
use multi_tenant_authorizati.Db.Ensures.{
  Ensures, Ensures-bind, Ensures-pure, Ensures-weaken, Ensures-const,
}
use multi_tenant_authorizati.Http.{Request, header, with_request_id}
use multi_tenant_authorizati.Http.Response.{Response, no_content}
use multi_tenant_authorizati.Middleware.Headers.{
  Served, Wrapped, written, panicked, headers_of, add_headers, under_headers, security_list,
  preflight_list, security_headers, is_allowed_origin, origin_headers, cors,
}
use multi_tenant_authorizati.Middleware.Stack.{
  recovered, recovery, request_logger, max_body_bytes, body_limit, api_stack,
}

abbrev later_or : Option String → Option String → Option String
later_or (some v) _ = some v
later_or none o = o

-- The value that is sent: the last one that was set under the name.
abbrev pub effective : String → List (String × String) → Option String
effective name [] = none
effective name ((k, v) ∷ rest) =
    later_or (effective name rest) (if str_eq k name then some v else none)

later_or_assoc : (a b c : Option String) → later_or a (later_or b c) ≡ later_or (later_or a b) c
later_or_assoc (some x) b c = refl
later_or_assoc none b c = refl

effective-append :
    (name : String) (hs ks : List (String × String))
    → effective name (hs ++ ks) ≡ later_or (effective name ks) (effective name hs)
effective-append name [] ks = nothing_before (effective name ks)
  where
    nothing_before : (o : Option String) → o ≡ later_or o none
    nothing_before none = refl
    nothing_before (some x) = refl
effective-append name ((k, v) ∷ hs) ks =
    ap (λ o. later_or o (if str_eq k name then some v else none)) (effective-append name hs ks)
    ∙ sym (later_or_assoc (effective name ks) (effective name hs) _)

abbrev pub Sent : List (String × String) → String × String → Type 0
Sent hs h = effective h.0 hs ≡ some h.1

abbrev pub Unset : List (String × String) → String × String → Type 0
Unset hs h = effective h.0 hs ≡ none

-- Every security header is sent with its value; none of them is set.
abbrev pub Secures : List (String × String) → Type 0
Secures hs = All (Sent hs) security_list

abbrev pub Leaves : List (String × String) → Type 0
Leaves hs = All (Unset hs) security_list

zip-All :
    {A : Type 0} {P Q R : A → Type 0}
    → ((x : A) → P x → Q x → R x)
    → (xs : List A) → All P xs
    → All Q xs
    → All R xs
zip-All f [] p q = tt
zip-All f (x ∷ xs) (p, ps) (q, qs) = (f x p q, zip-All f xs ps qs)

-- Headers that are set before are replaced, those that are set after count.
secured_before : (hs ks : List (String × String)) → Secures ks → Secures (hs ++ ks)
secured_before hs ks =
    map-All {P = Sent ks} {Q = Sent (hs ++ ks)} (λ h q. rw (effective-append h.0 hs ks, q) refl)
      security_list

secured_after : (hs ks : List (String × String)) → Secures hs → Leaves ks → Secures (hs ++ ks)
secured_after hs ks =
    zip-All {P = Sent hs} {Q = Unset ks} {R = Sent (hs ++ ks)}
      (λ h p q. rw (effective-append h.0 hs ks, q) p) security_list

left : (hs ks : List (String × String)) → Leaves hs → Leaves ks → Leaves (hs ++ ks)
left hs ks =
    zip-All {P = Unset hs} {Q = Unset ks} {R = Unset (hs ++ ks)}
      (λ h p q. rw (effective-append h.0 hs ks, q) p) security_list

security_list-Secures : Secures security_list
security_list-Secures = (refl, (refl, (refl, (refl, (refl, (refl, tt))))))

origin_headers-Leaves : (b : Bool) (o : String) → Leaves (origin_headers b o)
origin_headers-Leaves false o = (refl, (refl, (refl, (refl, (refl, (refl, tt))))))
origin_headers-Leaves true o = (refl, (refl, (refl, (refl, (refl, (refl, tt))))))

preflight_list-Leaves : Leaves preflight_list
preflight_list-Leaves = (refl, (refl, (refl, (refl, (refl, (refl, tt))))))

headers-add :
    (hs : List (String × String)) (s : Served) → headers_of (add_headers hs s) ≡ hs ++ headers_of s
headers-add hs (written r) = refl
headers-add hs (panicked ks) = refl

-- What an action serves, if it serves anything.
abbrev pub Serves : (List (String × String) → Type 0) → Go Served → Type 0
Serves P m = Ensures (λ _. Unit {0}) m (λ s _. P (headers_of s))

under_headers-Serves :
    (P Q : List (String × String) → Type 0) (hs : List (String × String)) (m : Go Served)
    → ((ks : List (String × String)) → P ks → Q (hs ++ ks))
    → Serves P m
    → Serves Q (under_headers hs m)
under_headers-Serves P Q hs m f k = Ensures-bind k λ s.
    Ensures-weaken
      (λ a d q.
        subst (λ x. Q (headers_of x)) (sym q.1)
          (subst Q (sym (headers-add hs s)) (f (headers_of s) q.0)))
      (Ensures-pure (add_headers hs s))

preflight-Leaves : Serves Leaves (pure (add_headers preflight_list (written no_content)))
preflight-Leaves =
    Ensures-weaken (λ s d q. subst (λ x. Leaves (headers_of x)) (sym q.1) preflight_list-Leaves)
      (Ensures-pure _)

module _ (new_string : Go String) (allowed : List String) (api : Wrapped)
    (unset : (r : Request) → Serves Leaves (api r)) where
  cors-Leaves : (r : Request) → Serves Leaves (cors allowed (body_limit api) r)
  unfolding cors body_limit
  cors-Leaves r =
      let b = is_allowed_origin allowed (header "Origin" r) in
      under_headers-Serves Leaves Leaves (origin_headers b (header "Origin" r)) _
        (λ ks q.
          left (origin_headers b (header "Origin" r)) ks
            (origin_headers-Leaves b (header "Origin" r)) q)
        (limited_or_preflight r)
    where
      limited_or_preflight :
          (r : Request)
          → Serves Leaves (
              if str_eq r.method "OPTIONS"
              then pure (add_headers preflight_list (written no_content))
              else api (record r { max_body = some max_body_bytes }))
      limited_or_preflight r = elim (Bool-cases (str_eq r.method "OPTIONS")) [
        | inl preflight ↦ rw (preflight) preflight-Leaves
        | inr other ↦ rw (other) (unset (record r { max_body = some max_body_bytes }))
      ]

  secured : (r : Request) → Serves Secures (security_headers (cors allowed (body_limit api)) r)
  unfolding security_headers
  secured r =
      under_headers-Serves Leaves Secures security_list _
        (λ ks q. secured_after security_list ks security_list-Secures q) (cors-Leaves r)

  logged :
      (r : Request)
      → Serves Secures
          (request_logger new_string (security_headers (cors allowed (body_limit api))) r)
  unfolding request_logger
  logged r = Ensures-bind Ensures-const λ id.
      under_headers-Serves Secures Secures (("X-Request-ID", id) ∷ []) _
        (λ ks q. secured_before (("X-Request-ID", id) ∷ []) ks q) (secured (with_request_id id r))

  -- Whatever the API does, a panic included, the stack answers with a response, and every security
  -- header is sent with it, if the API does not set those headers itself.
  pub api_stack-Secures :
      (r : Request) (e : Env) (w : World) (s : Served)
      → (api_stack new_string allowed api r e w).0 ≡ ok s
      → (a : Response) × (s ≡ written a) × Secures a.headers
  unfolding api_stack recovery
  api_stack-Secures r e w s h =
      (Ensures-bind {P = λ _. Unit {0}}
          {Q = λ x _. (a : Response) × (x ≡ written a) × Secures a.headers} (logged r)
          λ x. Ensures-weaken (λ y d q. answers x y q.1 q.0) (Ensures-pure _)).at
        e w s tt h
    where
      answers :
          (x y : Served)
          → y ≡ recovered x
          → Secures (headers_of x)
          → (a : Response) × (y ≡ written a) × Secures a.headers
      answers (written a) y same q = (a, same, q)
      answers (panicked hs) y same q =
          (_, same, secured_after hs _ q (refl, (refl, (refl, (refl, (refl, (refl, tt)))))))
