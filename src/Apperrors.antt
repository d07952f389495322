-- ===== src/Apperrors.antt =====
-- internal/apperrors/apperror.go: the sentinel errors, and the results that carry them.
use multi_tenant_authorizati.Base.{ℕ}

pub data Error : Type 0 where
  invalid_credentials unauthorized invalid_token : Error
  user_not_found email_already_exists phone_already_exists user_suspended : Error
  user_identifier_invalid : Error
  organization_id_invalid organization_not_found cannot_delete_personal_org : Error
  last_owner owner_action_restricted : Error
  membership_not_found membership_role_not_found already_member invitation_not_found : Error
  personal_workspace : Error
  invalid_request_body internal_server database : Error
  -- `errRefreshReplay`, private to internal/auth/service.go, with the session, the user and the
  -- token family that the variable `replayed` holds whenever it is returned
  refresh_replay : ℕ → ℕ → ℕ → Error
  -- any error that is none of the sentinels: of a driver, of a random source
  external : Error

pub data Result (A : Type 0) : Type 0 where
  ok : A → Result A
  err : Error → Result A
