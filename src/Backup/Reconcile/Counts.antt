-- ===== src/Backup/Reconcile/Counts.antt =====
-- How many requests a pass can send, and of which kinds.
use redis_backup_operator.Base.{ℕ, suc, ◌+◌, ◌≤◌, ◌≡◌, refl, List, [], ◌∷◌, arith, length, ap}
use redis_backup_operator.Types.Kubernetes.{NamespacedName, Pod}
use redis_backup_operator.Types.Backup.{RedisBackup, LastBackupInfo}
use redis_backup_operator.Runtime.{
  World, Event, creates, deletes, updates_backup, updates_clone, patches, commands, Environment,
}
use redis_backup_operator.Backup.Reconcile.{reconcile}
use redis_backup_operator.Backup.Reconcile.Writes.{
  HistoryTrace, unchanged, recorded, appended, appended_recorded, PassTrace, idle, creates_object,
  creates_recorded, sets_conditions, deletes_object, history,
}
use redis_backup_operator.Backup.Reconcile.Requests.{reconcile-PassTrace}

-- The requests to create or delete an object
abbrev pub object_requests : List Event → ℕ
object_requests [] = 0
object_requests (creates o ∷ log) = suc (object_requests log)
object_requests (deletes o ∷ log) = suc (object_requests log)
object_requests (updates_backup b ∷ log) = object_requests log
object_requests (updates_clone c ∷ log) = object_requests log
object_requests (patches m o ∷ log) = object_requests log
object_requests (commands o a ∷ log) = object_requests log

abbrev pub deletions : List Event → ℕ
deletions [] = 0
deletions (creates o ∷ log) = deletions log
deletions (deletes o ∷ log) = suc (deletions log)
deletions (updates_backup b ∷ log) = deletions log
deletions (updates_clone c ∷ log) = deletions log
deletions (patches m o ∷ log) = deletions log
deletions (commands o a ∷ log) = deletions log

HistoryTrace-counts :
    {S : Type 0} {env : Environment S} {b : RedisBackup} {i : LastBackupInfo}
    {before after : List Event}
    → HistoryTrace env b i before after
    → (length after ≤ length before + 2)
      × (object_requests after ≡ object_requests before)
      × (deletions after ≡ deletions before)
HistoryTrace-counts (unchanged e) = rw e (omega arith, refl, refl)
HistoryTrace-counts (recorded e) = rw e (omega arith, refl, refl)
HistoryTrace-counts (appended c new e) = rw e (omega arith, refl, refl)
HistoryTrace-counts (appended_recorded c s new fine e) = rw e (omega arith, refl, refl)

PassTrace-counts :
    {S : Type 0} {env : Environment S} {b : RedisBackup} {pods : List Pod}
    {before after : List Event}
    → PassTrace env b pods before after
    → (length after ≤ length before + 2) × (object_requests after ≤ object_requests before + 1)
PassTrace-counts (idle e) = rw e (omega arith, omega arith)
PassTrace-counts (creates_object pvc o m is e) = rw e (omega arith, omega arith)
PassTrace-counts (creates_recorded pvc o m full is e) = rw e (omega arith, omega arith)
PassTrace-counts (sets_conditions cs once e) = rw e (omega arith, omega arith)
PassTrace-counts (deletes_object pvc o m full is e) = rw e (omega arith, omega arith)
PassTrace-counts (history full t) = let c = HistoryTrace-counts t in (omega arith, omega arith)

PassTrace-deletions :
    {S : Type 0} {env : Environment S} {b : RedisBackup} {pods : List Pod}
    {before after : List Event}
    → b.spec.backup_schedule ≡ ""
    → PassTrace env b pods before after
    → deletions after ≡ deletions before
PassTrace-deletions once (idle e) = ap deletions e
PassTrace-deletions once (creates_object pvc o m is e) = ap deletions e
PassTrace-deletions once (creates_recorded pvc o m full is e) = ap deletions e
PassTrace-deletions once (sets_conditions cs once' e) = ap deletions e
PassTrace-deletions once (deletes_object pvc o m full is e) = absurd (full once)
PassTrace-deletions once (history full t) = absurd (full once)

module _ {S : Type 0} (env : Environment S) (req : NamespacedName) (w : World S) where
  -- A pass sends at most two requests, of which at most one creates or deletes an object: a pass
  -- never deletes and creates.
  pub reconcile-counts :
      (length (reconcile env req w).1.log ≤ length w.log + 2)
      × (object_requests (reconcile env req w).1.log ≤ object_requests w.log + 1)
  reconcile-counts = PassTrace-counts (reconcile-PassTrace env req w)

  -- A pass over a backup that is read with no schedule deletes nothing.
  pub reconcile-single_shot :
      (env.api.get_redis_backup req w.cluster).0.value.spec.backup_schedule ≡ ""
      → deletions (reconcile env req w).1.log ≡ deletions w.log
  reconcile-single_shot once = PassTrace-deletions once (reconcile-PassTrace env req w)
