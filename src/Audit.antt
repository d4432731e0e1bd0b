-- ===== src/Audit.antt =====
-- The audit log of backend/app/security.py as the list of what was written, oldest first.
-- Time stamps are left out: `details` and the names are what the callers choose.
use gitvibe_dev.Prelude.{String, List, [], ◌∷◌, ◌++◌}
use gitvibe_dev.Json.{Fields}

pub record AuditEvent : Type 0 where
  pub event : String
  pub actor : String
  pub details : Fields

-- `AuditLogger.security`
abbrev pub security : String → String → Fields → List AuditEvent → List AuditEvent
security event actor details log =
    log ++ record { event = event; actor = actor; details = details } ∷ []
