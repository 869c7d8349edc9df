-- ===== src/Security.antt =====
-- app/security/audit.py: the record of a sensitive operation.
use trelgream_self_userbot.Prelude.{ℕ, String, Option, none, refl, false}
use trelgream_self_userbot.Prelude.Text.{Text}
use trelgream_self_userbot.Core.Exec.{Exec}
use trelgream_self_userbot.Database.Models.Audit.{AuditLog}
use trelgream_self_userbot.Database.State.{Database}
use trelgream_self_userbot.Database.Repository.{Model, add}

abbrev pub audit_model : Model AuditLog
audit_model = record {
  id = λ r. r.id;
  has_tenant = false;
  tenant = λ r. none;
  table = λ db. db.audit_logs;
  with_table = λ t db. record db { audit_logs = t };
  table-with_table = λ t db. refl;
}

-- `ts` is the time of the call; `metadata` is never given by a caller in the services
unfoldable pub record_audit :
    (ts : ℕ) (actor_id : Option ℕ) (actor_role : Option String) (action : String)
    → (target_type : Option String) (target_id : Option Text) (result : String)
    → Exec Database AuditLog
unfolding add
record_audit ts actor_id actor_role action target_type target_id result = add audit_model λ i.
    record {
      id = i;
      ts = ts;
      actor_id = actor_id;
      actor_role = actor_role;
      action = action;
      target_type = target_type;
      target_id = target_id;
      result = result;
    }
