-- ===== src/Tests/StartRuns.antt =====
-- Start-up, migrations, the middleware stack and the validators, at small inputs.
use multi_tenant_authorizati.Base.{
  ℕ, suc, ◌≡◌, ◌↔◌, refl, sym, subst, inl, String, str_eq, true, false, Option, none, some, List,
  [], ◌∷◌, if◌then◌else◌,
}
use multi_tenant_authorizati.Apperrors.{ok}
use multi_tenant_authorizati.Db.Go.{pure}
use multi_tenant_authorizati.Db.Ensures.{Ensures-weaken, Ensures-pure}
use multi_tenant_authorizati.Utils.{ℤ, pos}
use multi_tenant_authorizati.Config.{Config, valid, load}
use multi_tenant_authorizati.Config.Loads.{Spelt, Usable, load_iff}
use multi_tenant_authorizati.Migrate
use multi_tenant_authorizati.Migrate.{
  Store, World, done, run, apply_file, apply_all, apply_one, sort_strings, insert_sorted,
  with_table,
}
use multi_tenant_authorizati.Migrate.Refines.{Refined, migrate_all, run-Refined}
use multi_tenant_authorizati.Migrate.Completes.{run-completes, run_again}
use multi_tenant_authorizati.Http.{Request, background, header}
use multi_tenant_authorizati.Http.Response.{Response, no_content, error_body}
use multi_tenant_authorizati.Middleware.Headers.{
  Served, Wrapped, written, panicked, headers_of, security_headers, cors, is_allowed_origin,
}
use multi_tenant_authorizati.Middleware.Stack.{api_stack, recovery, request_logger, body_limit}
use multi_tenant_authorizati.Middleware.Secured.{Secures, Leaves, Serves, api_stack-Secures}
use multi_tenant_authorizati.Middleware.Limited.{Prepared, api_stack-Prepared}
use multi_tenant_authorizati.Normalize.{nigerian_phone}
use multi_tenant_authorizati.Text.{get_or_empty}
use multi_tenant_authorizati.Scan.{Runes, runes}
use multi_tenant_authorizati.Validation.Custom.{validate_ng_phone}
use multi_tenant_authorizati.Validation.Phones.{IsNgPhone, validate_ng_phone_iff}
use multi_tenant_authorizati.Validation.Spellings.{without_separators, nigerian_phone-IsNgPhone}
use multi_tenant_authorizati.Tests.Fixtures.{quiet, world as small_world}

abbrev getenv : String → String
getenv key =
    if str_eq key "APP_ENV"
    then "development"
    else (if str_eq key "ACCESS_TOKEN_TTL" then "" else "set")

abbrev parse_duration : String → Option ℤ
parse_duration s = some (pos (if str_eq s "15m" then 900 else 3600))

abbrev config : Config
config = record {
  app_name = "set";
  app_port = "set";
  app_env = "development";
  db_url = "set";
  access_token_ttl = 900;
  refresh_token_ttl = 3600;
  cors_allowed_origins = "set" ∷ [];
}

load_iff_example :
    (load getenv parse_duration ≡ valid config)
    ↔ (Spelt getenv parse_duration config × Usable config)
load_iff_example = load_iff getenv parse_duration config

-- Each script counts itself; the files are listed in the wrong order.
abbrev deployer : Migrate.Env ℕ
deployer = record {
  url_parses = true;
  fails = λ _. false;
  glob = some ("000002_b.up.sql" ∷ "000001_a.up.sql" ∷ []);
  read_file = λ f. some f;
  exec_script = λ script n. some (suc n);
}

abbrev fresh : Migrate.World ℕ
fresh = record { store = record { schema = 0; table = none }; locked = false; step = 0 }

abbrev migrated : Store ℕ
migrated = record { schema = 2; table = some ("000002_b.up.sql" ∷ "000001_a.up.sql" ∷ []) }

run-Refined_example :
    Refined deployer fresh.store (run deployer fresh).0 (run deployer fresh).1.store
run-Refined_example = run-Refined deployer fresh

planned :
    migrate_all deployer
      (sort_strings ("000002_b.up.sql" ∷ "000001_a.up.sql" ∷ []))
      (with_table fresh.store)
    ≡ some migrated
unfolding migrate_all sort_strings insert_sorted
planned = refl

run-completes_example :
    ((run deployer fresh).0 ≡ done tt) × ((run deployer fresh).1.store ≡ migrated)
run-completes_example =
    run-completes deployer fresh ("000002_b.up.sql" ∷ "000001_a.up.sql" ∷ []) migrated refl
      (λ n. refl) refl planned

ran : (run deployer fresh).0 ≡ done tt
unfolding run apply_all apply_file apply_one sort_strings insert_sorted
ran = refl

run_again_example :
    (run deployer (record (run deployer fresh).1 { step = 30 })).1.store
    ≡ (run deployer fresh).1.store
run_again_example = run_again deployer deployer fresh 30 ran refl

-- An API that panics at every request.
abbrev panicking : Wrapped
panicking r = pure (panicked [])

panicking-Leaves : (r : Request) → Serves Leaves (panicking r)
panicking-Leaves r =
    Ensures-weaken
      (λ s d q.
        subst (λ x. Leaves (headers_of x)) (sym q.1)
          (refl, (refl, (refl, (refl, (refl, (refl, tt)))))))
      (Ensures-pure (panicked []))

abbrev request : Request
request = record {
  method = "GET";
  headers = ("X-Request-ID", "abc") ∷ [];
  cookies = [];
  path_values = [];
  query = [];
  remote_addr = "10.0.0.1:80";
  max_body = none;
  context = background;
}

abbrev origins : List String
origins = "https://app.example" ∷ []

abbrev answer : Served
answer = written (record {
  status = 500;
  headers =
      ("X-Request-ID", "abc")
      ∷ ("X-Content-Type-Options", "nosniff")
      ∷ ("X-Frame-Options", "DENY")
      ∷ ("Referrer-Policy", "strict-origin-when-cross-origin")
      ∷ ("Strict-Transport-Security", "max-age=63072000; includeSubDomains")
      ∷ ("Content-Security-Policy", "default-src 'none'; frame-ancestors 'none'")
      ∷ ("X-XSS-Protection", "1; mode=block")
      ∷ ("Content-Type", "application/json")
      ∷ [];
  cookies = [];
  body = error_body "internal_error" "Something went wrong";
})

recovered_panic : (api_stack (pure "new") origins panicking request quiet small_world).0 ≡ ok answer
unfolding api_stack recovery request_logger security_headers cors body_limit is_allowed_origin
    header get_or_empty
recovered_panic = refl

api_stack-Secures_example : (a : Response) × (answer ≡ written a) × Secures a.headers
api_stack-Secures_example =
    api_stack-Secures (pure "new") origins panicking panicking-Leaves request quiet small_world
      answer recovered_panic

-- Two APIs that differ only at a body without a bound.
abbrev silent : Wrapped
silent r = pure (written no_content)

abbrev picky : Wrapped
picky r = elim r.max_body [ none ↦ pure (panicked []) | some _ ↦ pure (written no_content) ]

silent-picky : (r : Request) → Prepared r → silent r ≡ picky r
silent-picky r (bounded, _, _) = rw (bounded) refl

api_stack-Prepared_example :
    api_stack (pure "new") origins silent request ≡ api_stack (pure "new") origins picky request
api_stack-Prepared_example =
    api_stack-Prepared origins silent picky silent-picky (pure "new") request

validate_ng_phone_iff_example :
    (validate_ng_phone "+2348031234567" ≡ true) ↔ IsNgPhone (runes "+2348031234567")
validate_ng_phone_iff_example = validate_ng_phone_iff "+2348031234567"

abbrev nine : Runes
nine = runes "031234567"

spelt : without_separators (runes " 0803-123 4567") ≡ b'0' ∷ b'8' ∷ nine
spelt = refl

nigerian_phone-IsNgPhone_example :
    (runes (nigerian_phone " 0803-123 4567") ≡ b'+' ∷ b'2' ∷ b'3' ∷ b'4' ∷ b'8' ∷ nine)
    × (validate_ng_phone (nigerian_phone " 0803-123 4567") ≡ true)
nigerian_phone-IsNgPhone_example =
    nigerian_phone-IsNgPhone " 0803-123 4567" b'8' nine (inl spelt) refl refl
      (refl, (refl, (refl, (refl, (refl, (refl, (refl, (refl, (refl, tt)))))))))
