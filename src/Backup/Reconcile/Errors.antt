-- ===== src/Backup/Reconcile/Errors.antt =====
-- What a pass of Reconcile answers, by the branches of the code.
use redis_backup_operator.Base.{String, List}
use redis_backup_operator.Types.Kubernetes.{ApiResourceList}
use redis_backup_operator.Runtime.{World, Outcome, Event, Environment}
use redis_backup_operator.Backup.{scan_versions}
use redis_backup_operator.Backup.Reconcile.Answers.{Answers}

module _ {S : Type 0} (env : Environment S) (base : List Event) where
  abbrev of_discovery : S → Outcome (List ApiResourceList) → Outcome String × World S
  of_discovery s lists = elim lists [
    | Outcome.returned rs ↦
        (Outcome.returned (scan_versions rs ""), record { cluster = s; log = base })
    | Outcome.panicked ↦ (Outcome.panicked, record { cluster = s; log = base })
    | Outcome.exited ↦ (Outcome.exited, record { cluster = s; log = base })
  ]
