-- ===== src/Backup/Steps.antt =====
-- The steps of `Reconcile` of RedisBackup that send requests: creation, deletion, and the status
-- updates from the record in redis. An early return is a branch that ends. `failed` returns an
-- error without the requeue flag and `requeued` with it.
use redis_backup_operator.Base.{
  String, ◌==◌, Bool, true, not, ◌&&◌, none, some, List, [], ◌∷◌, ◌++◌, get_elem?, get_last?,
  if◌then◌else◌, is_none,
}
use redis_backup_operator.Types.Kubernetes.{Pod, Job, Object}
use redis_backup_operator.Types.Backup.{
  RedisBackup, RedisBackupSpec, LastBackupInfo, BackupCondition,
}
use redis_backup_operator.Runtime.{
  M, pure, send, or_panic, ◌>>=◌, Reply, Result, done, failed, requeued, creates, deletes,
  updates_backup, Environment,
}
use redis_backup_operator.Redis.{redis_conn}
use redis_backup_operator.Cronjob.{make_cron_job}

-- `BackupInfo`, from the spec
abbrev pub backup_info : RedisBackupSpec → LastBackupInfo
backup_info spec = record {
  backup_secret_name = spec.backup_secret_name;
  backup_url = spec.backup_url;
  backup_schedule = spec.backup_schedule;
}

-- `reflect.DeepEqual(BackupInfo, oldBackupInfo)`
abbrev pub same_info : LastBackupInfo → LastBackupInfo → Bool
same_info a b =
    a.backup_secret_name == b.backup_secret_name
    && a.backup_url == b.backup_url
    && a.backup_schedule == b.backup_schedule

abbrev pub with_conditions : RedisBackup → List BackupCondition → RedisBackup
with_conditions backup conditions = record backup {
  status = record (backup.status) { conditions = conditions };
}

abbrev pub with_info : RedisBackup → LastBackupInfo → RedisBackup
with_info backup info = record backup {
  status = record (backup.status) { last_backup_info = info };
}

-- Whether the record read from redis is a new one: there is none yet, or its file is not that of
-- the last one.
abbrev pub is_new : BackupCondition → List BackupCondition → Bool
is_new condition conditions = elim (get_last? conditions) [
  | none ↦ true
  | some last ↦ not (condition.file_path == last.file_path)
]

module _ {S : Type 0} (env : Environment S) where
  abbrev pub update_status : RedisBackup → M S (Reply RedisBackup)
  update_status backup = send (updates_backup backup) (env.api.update_backup_status backup)

  -- The new object gets its owner and is created; `after` is what follows a success.
  unfoldable pub create_owned : RedisBackup → Object → M S Result → M S Result
  create_owned backup object after =
      let owned = env.api.set_controller_reference backup object in
      elim (owned.error) [
        | some err ↦ pure (requeued err)
        | none ↦ do
          refused ← send (creates owned.value) (env.api.create owned.value)
          elim refused [ some err ↦ pure (requeued err) | none ↦ after ]
      ]

  -- `MakeCronJob` and the creation of what it builds
  unfoldable pub create_backup :
      RedisBackup → String → String → String → List Pod → M S Result → M S Result
  unfolding make_cron_job create_owned
  create_backup backup key_name version backup_pvc podlist after = do
    object ← or_panic (
        make_cron_job env.host.lookup_env key_name backup.spec.backup_schedule version backup_pvc
          backup.spec.cluster_name backup podlist)
    create_owned backup object after

  -- The record in redis, if there is one, becomes the list of conditions.
  unfoldable pub set_job_conditions : RedisBackup → String → M S Result
  set_job_conditions backup res = if res == "" then pure done else (do
    reply ← update_status (with_conditions backup (env.host.unmarshal_conditions res))
    elim (reply.error) [ some err ↦ pure (failed err) | none ↦ pure done ])

  -- The existing single-shot job: its record is read once it was created.
  unfoldable pub sync_job_status : RedisBackup → Job → String → String → String → M S Result
  unfolding redis_conn set_job_conditions
  sync_job_status backup backup_job key_name host_port redis_pass =
      if is_none backup_job.metadata.creation_timestamp
      then pure done
      else (do res ← redis_conn env key_name host_port redis_pass; set_job_conditions backup res)

  -- The last step of a backup with a schedule: the settings of this pass are recorded.
  unfoldable pub record_info : RedisBackup → LastBackupInfo → M S Result
  record_info backup info = do
    reply ← update_status (with_info backup info)
    elim (reply.error) [ some err ↦ pure (failed err) | none ↦ pure done ]

  -- A new record is appended to the history; then the settings are recorded.
  unfoldable pub append_condition : RedisBackup → LastBackupInfo → BackupCondition → M S Result
  unfolding record_info
  append_condition backup info condition =
      if is_new condition backup.status.conditions
      then (do
        reply ← update_status (with_conditions backup (backup.status.conditions ++ condition ∷ []))
        elim (reply.error) [ some err ↦ pure (failed err) | none ↦ record_info reply.value info ])
      else record_info backup info

  -- The record in redis, if there is one. `condition[0]` panics where nothing was decoded.
  unfoldable pub extend_history : RedisBackup → LastBackupInfo → String → M S Result
  unfolding record_info append_condition
  extend_history backup info res = if res == "" then record_info backup info else (do
    condition ← or_panic (get_elem? (env.host.unmarshal_conditions res) 0)
    append_condition backup info condition)

  unfoldable pub sync_history : RedisBackup → LastBackupInfo → String → String → M S Result
  unfolding redis_conn extend_history
  sync_history backup info host_port redis_pass = do
    res ← redis_conn env "backupCronjob" host_port redis_pass
    extend_history backup info res

  -- The rebuild: the built object is deleted by its name, and the pass ends.
  unfoldable pub delete_built : Object → M S Result
  delete_built object = do
    refused ← send (deletes object) (env.api.delete object)
    elim refused [ some err ↦ pure (requeued err) | none ↦ pure done ]
