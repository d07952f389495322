-- ===== src/Http/Statuses.antt =====
-- internal/response/response.go: which status an error becomes.
use multi_tenant_authorizati.Base.{ℕ, ◌≤◌, ◌<◌, ◌≡◌, refl, ◌⊎◌, inl, inr, arith}
use multi_tenant_authorizati.Apperrors
use multi_tenant_authorizati.Apperrors.{Error}
use multi_tenant_authorizati.Http.Response.{handle_error, error}

-- The errors that are the server's own: their texts are not for a client.
pub data Internal : Error → Type 0 where
  user_missing : Internal Apperrors.user_not_found
  server : Internal Apperrors.internal_server
  storage : Internal Apperrors.database
  replayed : (s u f : ℕ) → Internal (Apperrors.refresh_replay s u f)
  other : Internal Apperrors.external

-- HandleError answers an internal error with status 500 and one fixed text, and every other error
-- with a status of a client's error.
handle_error-status :
    (x : Error)
    → (Internal x × (handle_error x ≡ error 500 "internal_server_error" "internal server error"))
      ⊎ ((400 ≤ (handle_error x).status) × ((handle_error x).status < 500))
unfolding handle_error
handle_error-status Apperrors.user_not_found = inl (user_missing, refl)
handle_error-status Apperrors.internal_server = inl (server, refl)
handle_error-status Apperrors.database = inl (storage, refl)
handle_error-status (Apperrors.refresh_replay s u f) = inl (replayed s u f, refl)
handle_error-status Apperrors.external = inl (other, refl)
handle_error-status x = inr (omega arith, omega arith)
