-- ===== src/Audit.antt =====
-- internal/audit: the log of business events. `Log` checks its entry and inserts a row.
use multi_tenant_authorizati.Base.{
  String, Bool, ◌&&◌, Option, none, some, List, ◌∷◌, ◌==◌, str_eq, if◌then◌else◌, true,
}
use multi_tenant_authorizati.Apperrors.{invalid_request_body, database}
use multi_tenant_authorizati.Db.Rows.{exists_row}
use multi_tenant_authorizati.Db.Schema.{Uuid, AuditLog}
use multi_tenant_authorizati.Db.Go.{
  Go, pure, raise_if, ◌>>=◌, ◌>>◌, Statement, row, unique_violation, failed, statement, scan, try,
}
use multi_tenant_authorizati.Membership.Repository.{user_exists, org_exists}

-- A nil Metadata map is the empty list.
pub record LogEntry : Type 0 where
  pub organization_id : Option Uuid
  pub user_id : Option Uuid
  pub action : String
  pub entity_type : String
  pub entity_id : Option Uuid
  pub metadata : List (String × Uuid)
  pub ip_address : String
  pub user_agent : String

-- A reference that may be NULL.
abbrev null_or : (Uuid → Bool) → Option Uuid → Bool
null_or p none = true
null_or p (some a) = p a

abbrev insert_audit_log : LogEntry → Statement Unit Unit
insert_audit_log l t d =
    if exists_row (λ (a : AuditLog). a.id == t.fresh 0) d.audit_logs
    then (unique_violation tt, d)
    else (if null_or (λ o. org_exists o d) l.organization_id
          && null_or (λ u. user_exists u d) l.user_id
        then (
          row tt,
          record d {
            audit_logs =
                record {
                  id = t.fresh 0;
                  organization_id = l.organization_id;
                  user_id = l.user_id;
                  action = l.action;
                  entity_type = l.entity_type;
                  entity_id = l.entity_id;
                  metadata = l.metadata;
                  ip_address = l.ip_address;
                  user_agent = l.user_agent;
                  created_at = t.now;
                }
                ∷ d.audit_logs;
          },
        )
        else (failed, d))

-- `Service.Log`; json.Marshal of a map of texts does not fail.
unfoldable pub log : LogEntry → Go Unit
log l = do
  raise_if (str_eq l.action "") invalid_request_body
  scan database (← statement (insert_audit_log l))

-- A failed write is logged, and changes nothing else.
unfoldable pub log_best_effort : LogEntry → Go Unit
unfolding log
log_best_effort l = do _ ← try (log l); pure tt
