-- ===== src/Lib.antt =====
-- A model of the multi-tenant authorization service, and what is proved of it.
--
-- The service keeps users, organizations (the tenants), roles, memberships, invitations, sessions
-- and two logs in PostgreSQL, and answers HTTP requests. A request passes a rate limiter, the
-- authentication and authorization middleware, a handler, a service and a repository, which sends
-- one SQL statement for each of its functions.
--
-- Which file models what:
-- - Base, Apperrors: shared names, tests on numbers, the sentinel errors of
--   internal/apperrors/apperror.go and the results that carry them.
-- - Db/Schema, Db/Provision: the tables of migrations/000001_init_schema.up.sql as lists of rows,
--   and the trigger of migrations/000004_seed_org_defaults_function.up.sql.
-- - Db/Rows: SELECT, EXISTS, COUNT, UPDATE and DELETE as functions on rows; Db/RowLaws and
--   Db/Stored: their laws.
-- - Db/Go, Db/Driver: the Go code as actions on a world (the database and a count of interactions)
--   in surroundings that say which statement fails, what the clock reads, which random text and
--   salt is drawn and which identifier is generated; a transaction by what pgx.BeginFunc documents.
-- - Db/Keeps, Db/Ensures, Db/Atomic: the rules by which actions are proved to keep an invariant,
--   to establish a condition, and to change nothing when they fail.
-- - Membership/Repository, Membership/Service, Membership/Handler: internal/membership, function by
--   function. The other files of the folder are its proofs: Owners, OwnersKept and LastOwner on the
--   last owner, Valid and Preserves on the constraints, Guards and OwnerOnly on who may act,
--   Invitations, Once, Issue and Grants on invitations, System on sequences of calls, Isolation on
--   other tenants, Atomic on failures.
-- - Auth/Repository, Auth/Service, Auth/Password, Auth/Cookies, Auth/Handler: internal/auth;
--   Sessions, Rotation, Replay, Access, Credentials, SignIn, SignUp, Registration, Csrf, Untouched,
--   Families, System, Spent, Refused, Password/Verifies, Users, Enrolment and Reentry are its
--   proofs.
-- - Base64, Scan: the functions of encoding/base64, strings and fmt that passwords are written and
--   read with, and their round trips.
-- - Organization/Repository, Organization/Service, Organization/Handler: internal/organization;
--   Founding, Founded and Deletion are its proofs.
-- - Authz, Authz/Policy: the permission query of internal/authz and the policy that it decides.
-- - Audit, Trail, Role: internal/audit, the two listings of logs, internal/role; Listing on what a
--   page holds.
-- - Http, Http/Response, Http/Handler: requests and internal/requestctx, internal/response, and
--   what the handlers share; Http/Statuses on the statuses of errors.
-- - Middleware/Auth, Middleware/RateLimit, Middleware/Headers, Middleware/Stack:
--   internal/middleware, and the order in which cmd/main.go wraps the API in it; Guards, Limits,
--   Origins, Secured and Limited are its proofs.
-- - Routes, Routes/Guarded: internal/routes/routes.go and the permissions that it enforces.
-- - Text, Utils, Utils/Page, Normalize, Validation: internal/utils, internal/normalize and
--   internal/validation; below Validation, Regex and Custom are the expressions and the validators
--   of extended.go, Phones, Spellings and Identifiers what they accept.
-- - Config, Migrate, Health, Server: internal/config, internal/migrate, internal/health and the
--   start and the shutdown of cmd/main.go, with their proofs below them.
-- - System: the application as one transition system, whose steps are the calls of every service;
--   Sessions on the tokens that stay refused.
-- - Tests: a small database and the theorems applied to it.
--
-- How the parts meet: a handler returns a value of Http.Response and calls its service, a service
-- runs in the driver's transactions and calls its repository, and a repository's function is one
-- `statement` on the tables. Middleware.Auth turns handlers into handlers, Routes composes them,
-- and Middleware.Stack goes around the result. System closes all services under one reachability
-- relation, in which the surroundings of every call are arbitrary.
--
-- An identifier or a digest is a number, a time the nanoseconds since the epoch. A loop is a
-- recursion on a list; the one count of steps is that of the digits of a number in Scan, where
-- twenty are enough for every number below 2 ^ 64. SHA-256, argon2.IDKey (whose panic is `none`),
-- uuid.Parse, uuid.NewString, strconv.Atoi, net.SplitHostPort, time.ParseDuration, libphonenumber,
-- the validator, encoding/json, golang.org/x/time/rate, pgx.BeginFunc, the files of migrations and
-- what their SQL does are parameters. A COMMIT that reports an error may have taken effect or not;
-- a statement that reports one outside of a transaction is taken to have had no effect.
--
-- Not modelled: transactions that interleave (the row locks of the code are taken to serialize
-- them), the text of JSON bodies, the struct tags that the validator library reads, lines in the
-- log, a panic after a response was written, the connection pool, the timeouts of the server, the
-- pattern matching of the multiplexer and the flags of cmd/migrate: what they do is the work of a
-- library or a device that the sources only call.
pub mod Base
pub mod Apperrors
pub mod Db
pub mod Membership
pub mod Organization
pub mod Text
pub mod Base64
pub mod Scan
pub mod Config
pub mod Migrate
pub mod Audit
pub mod Auth
pub mod Http
pub mod Authz
pub mod Middleware
pub mod Validation
pub mod Normalize
pub mod Utils
pub mod Role
pub mod Trail
pub mod Listing
pub mod Routes
pub mod Health
pub mod Server
pub mod System
pub mod Tests
