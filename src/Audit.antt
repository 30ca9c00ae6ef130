-- ===== src/Audit.antt =====
-- src/audit/audit.service.ts: the append-only audit log.
use sky_high_core.Common.{List, ◌∷◌, if◌then◌else◌}
use sky_high_core.Domain.Entities.{AuditLog}
use sky_high_core.Domain.Errors.{ok, Action, modify}
use sky_high_core.Platform.Backend.{Backend, Database, Tables}
use sky_high_core.Platform.World.{World}

module _ {be : Backend} where
  -- Fire and forget: the save is started, and nobody waits for it.
  unfoldable pub log : AuditLog → Action (World be) (Unit {0})
  log row = modify λ w. record w { saving = row ∷ w.saving }

  -- A save that `log` has started ends, at any later time, and leaves the others under way; if it
  -- fails, that is logged and nothing else happens.
  unfoldable pub save_ends : AuditLog → List AuditLog → World be → World be
  save_ends row others w = record w {
    tables =
        if be.stores row then record w.tables { audit_logs = row ∷ w.audit_logs } else w.tables;
    saving = others;
  }

module _ {db : Database} where
  unfoldable pub log_with_transaction : AuditLog → Action (Tables db) AuditLog
  log_with_transaction row t = (ok row, record t { audit_logs = row ∷ t.audit_logs })
