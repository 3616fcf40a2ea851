-- ===== src/Backup/Reconcile/StepAnswers.antt =====
-- What the steps of a pass answer.
use redis_backup_operator.Base.{
  String, ◌==◌, ◌≡◌, none, some, List, [], ◌∷◌, ◌++◌, get_elem?, is_none,
}
use redis_backup_operator.Types.Kubernetes.{Object, Job, Pod}
use redis_backup_operator.Redis.{redis_conn}
use redis_backup_operator.Cronjob.{make_cron_job}
use redis_backup_operator.Types.Backup.{RedisBackup, LastBackupInfo, BackupCondition}
use redis_backup_operator.Runtime.{
  M, pure, send, ◌>>=◌, Event, creates, deletes, updates_backup, GoError, Result, done, requeued,
  failed, Environment,
}
use redis_backup_operator.Backup.Steps.{
  update_status, with_conditions, with_info, is_new, create_owned, create_backup,
  set_job_conditions, sync_job_status, record_info, append_condition, extend_history, sync_history,
  delete_built,
}
use redis_backup_operator.Backup.Reconcile.Answers.{
  unowned, IsGranted, unsent, created, deleted, updated, create_refused, delete_refused,
  update_refused, Always, done-Always, not_begun-Always, send-Always, or_panic-Always, if-Always,
  error-Always,
}

module _ {S : Type 0} (env : Environment S) (base : List Event) where
  update-refused :
      (b : RedisBackup) (log : List Event) (s : S) (err : GoError)
      → (env.api.update_backup_status b s).0.error ≡ some err
      → IsGranted env base log
      → Always env base (updates_backup b ∷ log) (pure (failed err))
  unfolding Always
  update-refused b log s err e g s' = update_refused b s err log e g

  deletion-refused :
      (o : Object) (s : S) (err : GoError)
      → (env.api.delete o s).0 ≡ some err
      → Always env base (deletes o ∷ base) (pure (requeued err))
  unfolding Always
  deletion-refused o s err e s' = delete_refused o s err e

  creation-refused :
      (o : Object) (s : S) (err : GoError)
      → (env.api.create o s).0 ≡ some err
      → Always env base (creates o ∷ base) (pure (requeued err))
  unfolding Always
  creation-refused o s err e s' = create_refused o s err e

  -- A status update and what follows its success
  update-Always :
      (b : RedisBackup) (log : List Event) (k : RedisBackup → M S Result)
      → IsGranted env base log
      → ((b' : RedisBackup) (log' : List Event)
          → IsGranted env base log'
          → Always env base log' (k b'))
      → Always env base log (
          update_status env b >>= λ reply. elim (reply.error) [
            | some err ↦ pure (failed err)
            | none ↦ k reply.value
          ])
  update-Always b log k g h =
      send-Always env base log (updates_backup b) (env.api.update_backup_status b)
        (λ reply. elim (reply.error) [ some err ↦ pure (failed err) | none ↦ k reply.value ])
        (λ s.
          error-Always env base (updates_backup b ∷ log) (env.api.update_backup_status b s).0.error
            (λ err. pure (failed err)) (k (env.api.update_backup_status b s).0.value)
            (λ err refused. update-refused b log s err refused g)
            (λ fine.
              h (env.api.update_backup_status b s).0.value (updates_backup b ∷ log)
                (updated b s fine g)))

  pub record_info-Always :
      (b : RedisBackup) (info : LastBackupInfo) (log : List Event)
      → IsGranted env base log
      → Always env base log (record_info env b info)
  unfolding record_info
  record_info-Always b info log g =
      update-Always (with_info b info) log (λ b'. pure done) g
        (λ b' log' g'. done-Always env base log' g')

  append_condition-Always :
      (b : RedisBackup) (info : LastBackupInfo) (c : BackupCondition) (log : List Event)
      → IsGranted env base log
      → Always env base log (append_condition env b info c)
  unfolding append_condition
  append_condition-Always b info c log g =
      if-Always env base log (is_new c b.status.conditions) _ _
        (update-Always (with_conditions b (b.status.conditions ++ c ∷ [])) log
          (λ b'. record_info env b' info) g (λ b' log' g'. record_info-Always b' info log' g'))
        (record_info-Always b info log g)

  extend_history-Always :
      (b : RedisBackup) (info : LastBackupInfo) (res : String) (log : List Event)
      → IsGranted env base log
      → Always env base log (extend_history env b info res)
  unfolding extend_history
  extend_history-Always b info res log g =
      if-Always env base log (res == "") _ _ (record_info-Always b info log g) (
        or_panic-Always env base log (get_elem? (env.host.unmarshal_conditions res) 0)
          (append_condition env b info) (λ c. append_condition-Always b info c log g))

  pub delete_built-Always : (o : Object) → Always env base base (delete_built env o)
  unfolding delete_built
  delete_built-Always o =
      send-Always env base base (deletes o) (env.api.delete o)
        (λ refused. elim refused [ some err ↦ pure (requeued err) | none ↦ pure done ])
        (λ s.
          error-Always env base (deletes o ∷ base) (env.api.delete o s).0
            (λ err. pure (requeued err)) (pure done) (λ err e. deletion-refused o s err e)
            (λ fine. done-Always env base (deletes o ∷ base) (deleted o s fine unsent)))

  create_owned-Always :
      (b : RedisBackup) (o : Object) (after : M S Result)
      → ((log : List Event) → IsGranted env base log → Always env base log after)
      → Always env base base (create_owned env b o after)
  unfolding create_owned
  create_owned-Always b o after h =
      let owned = env.api.set_controller_reference b o in
      error-Always env base base owned.error (λ err. pure (requeued err))
        (send (creates owned.value) (env.api.create owned.value) >>= λ refused. elim refused [
          | some err ↦ pure (requeued err)
          | none ↦ after
        ])
        (λ err e. not_begun-Always env base err (unowned b o e))
        (λ has_owner.
          send-Always env base base (creates owned.value) (env.api.create owned.value)
            (λ refused. elim refused [ some err ↦ pure (requeued err) | none ↦ after ])
            (λ s.
              error-Always env base (creates owned.value ∷ base) (env.api.create owned.value s).0
                (λ err. pure (requeued err)) after (λ err e. creation-refused owned.value s err e)
                (λ fine. h (creates owned.value ∷ base) (created owned.value s fine unsent))))

  pub create_backup-Always :
      (b : RedisBackup) (key version claim : String) (pods : List Pod) (after : M S Result)
      → ((log : List Event) → IsGranted env base log → Always env base log after)
      → Always env base base (create_backup env b key version claim pods after)
  unfolding create_backup
  create_backup-Always b key version claim pods after h =
      or_panic-Always env base base
        (make_cron_job env.host.lookup_env key b.spec.backup_schedule version claim
          b.spec.cluster_name b pods)
        (λ o. create_owned env b o after) (λ o. create_owned-Always b o after h)

  set_job_conditions-Always :
      (b : RedisBackup) (res : String) → Always env base base (set_job_conditions env b res)
  unfolding set_job_conditions
  set_job_conditions-Always b res =
      if-Always env base base (res == "") _ _ (done-Always env base base unsent) (
        update-Always (with_conditions b (env.host.unmarshal_conditions res)) base (λ b'. pure done)
          unsent (λ b' log' g'. done-Always env base log' g'))

  -- The read from redis, and what follows it
  redis-Always :
      (key host pass : String) (k : String → M S Result)
      → ((res : String) → Always env base base (k res))
      → Always env base base (redis_conn env key host pass >>= k)
  unfolding redis_conn Always
  redis-Always key host pass k h s = h _ _

  pub sync_job_status-Always :
      (b : RedisBackup) (j : Job) (key host pass : String)
      → Always env base base (sync_job_status env b j key host pass)
  unfolding sync_job_status
  sync_job_status-Always b j key host pass =
      if-Always env base base (is_none j.metadata.creation_timestamp) _ _
        (done-Always env base base unsent)
        (redis-Always key host pass (set_job_conditions env b)
          (λ res. set_job_conditions-Always b res))

  pub sync_history-Always :
      (b : RedisBackup) (info : LastBackupInfo) (host pass : String)
      → Always env base base (sync_history env b info host pass)
  unfolding sync_history
  sync_history-Always b info host pass =
      redis-Always "backupCronjob" host pass (extend_history env b info)
        (λ res. extend_history-Always b info res base unsent)
