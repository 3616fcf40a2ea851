-- ===== src/Backup/Reconcile.antt =====
-- `Reconcile` of RedisBackup, from the read of the resource to the branches for a Job and for a
-- CronJob.
pub mod Reads
pub mod Writes
pub mod Creation
pub mod Passes
pub mod Requests
pub mod Counts
pub mod Settings
pub mod Decisions
pub mod Settling
pub mod Beta
pub mod Answers
pub mod StepAnswers
pub mod Errors
use redis_backup_operator.Base.{
  String, ◌==◌, Bool, true, false, not, ◌&&◌, ◌||◌, Option, none, some, List, [], ◌∷◌, ◌++◌,
  get_elem?, get_last?, if◌then◌else◌, is_none,
}
use redis_backup_operator.Base.Text.{◌+++◌, get}
use redis_backup_operator.Types.Kubernetes.{
  NamespacedName, Pod, Job, CronJob, Object, ApiResourceList,
}
use redis_backup_operator.Types.Backup.{
  RedisBackup, RedisBackupSpec, LastBackupInfo, BackupCondition,
}
use redis_backup_operator.Runtime.{
  M, pure, call, send, or_panic, ◌>>=◌, Outcome, GoError, Reply, Result, done, failed, requeued,
  creates, deletes, updates_backup, Environment, World,
}
use redis_backup_operator.Redis.{redis_conn}
use redis_backup_operator.Cronjob.{make_cron_job, exist_cron_job, cron_job_version_v1beta1}
use redis_backup_operator.Backup.{
  MasterSearch, found, not_running, no_master, broken, search_master, first_claim, pod_labels,
  scan_versions,
}
use redis_backup_operator.Backup.Steps.{
  backup_info, same_info, create_backup, sync_job_status, record_info, sync_history, delete_built,
}

module _ {S : Type 0} (env : Environment S) where
  -- `getCronJobVersion`
  unfoldable pub get_cron_job_version : M S String
  unfolding scan_versions
  get_cron_job_version w =
      let (lists, s) = env.api.server_preferred_resources w.cluster in
      elim lists [
        | Outcome.returned rs ↦ (Outcome.returned (scan_versions rs ""), record w { cluster = s })
        | Outcome.panicked ↦ (Outcome.panicked, record w { cluster = s })
        | Outcome.exited ↦ (Outcome.exited, record w { cluster = s })
      ]

  -- The branch of a backup with no schedule
  unfoldable pub reconcile_job :
      RedisBackup → String → String → String → String → List Pod → M S Result
  unfolding create_backup sync_job_status
  reconcile_job backup namespace backup_pvc host_port redis_pass podlist =
      let key_name = backup.metadata.name in
      do
        got ← call (env.api.get_job (record { namespace = namespace; name = backup.metadata.name }))
        elim (got.error) [
          | some err ↦
              if err.is_not_found
              then create_backup env backup key_name "" backup_pvc podlist (pure done)
              else pure (requeued err)
          | none ↦ sync_job_status env backup got.value key_name host_port redis_pass
        ]

  -- What follows `ExistCronJobV1beta1`, from its pointer and its error: the CronJob is deleted if
  -- its claim is not the master's. A nil pointer is dereferenced.
  unfoldable pub sync_found :
      RedisBackup
      → LastBackupInfo
      → Object
      → String
      → String
      → String
      → Option CronJob
      → Option GoError
      → M S Result
  unfolding delete_built sync_history first_claim
  sync_found backup info object backup_pvc host_port redis_pass pointer failure = elim failure [
    | some err ↦ pure (requeued err)
    | none ↦ do
      found_one ← or_panic pointer
      backup_pvc_old ← or_panic (first_claim found_one.spec.job_template.template)
      if backup_pvc == backup_pvc_old
          then sync_history env backup info host_port redis_pass
          else delete_built env object
  ]

  -- An existing CronJob under `batch/v1beta1`
  unfoldable pub sync_v1beta1 :
      RedisBackup → LastBackupInfo → Object → String → String → String → String → M S Result
  unfolding sync_found
  sync_v1beta1 backup info object namespace backup_pvc host_port redis_pass = do
    (_, pointer, failure) ←
        exist_cron_job backup.metadata.name namespace env.api.get_cron_job_v1beta1
    sync_found backup info object backup_pvc host_port redis_pass pointer failure

  -- An existing CronJob under `batch/v1`: it is deleted if the settings have changed since the
  -- last recorded pass.
  unfoldable pub sync_v1 : RedisBackup → LastBackupInfo → Object → String → String → M S Result
  unfolding delete_built sync_history
  sync_v1 backup info object host_port redis_pass =
      if same_info info backup.status.last_backup_info
      then sync_history env backup info host_port redis_pass
      else delete_built env object

  -- `Get` of the CronJob under the version of the API
  unfoldable pub get_by_version : String → NamespacedName → S → Reply CronJob × S
  get_by_version version =
      if version == cron_job_version_v1beta1
      then env.api.get_cron_job_v1beta1
      else env.api.get_cron_job

  -- The CronJob exists: the same object is built again, and compared.
  unfoldable pub sync_cron_job :
      RedisBackup
      → LastBackupInfo
      → String
      → String
      → String
      → String
      → String
      → List Pod
      → M S Result
  unfolding make_cron_job sync_v1beta1 sync_v1
  sync_cron_job backup info version namespace backup_pvc host_port redis_pass podlist = do
    object ← or_panic (
        make_cron_job env.host.lookup_env "backupCronjob" backup.spec.backup_schedule version
          backup_pvc backup.spec.cluster_name backup podlist)
    if version == cron_job_version_v1beta1
        then sync_v1beta1 backup info object namespace backup_pvc host_port redis_pass
        else sync_v1 backup info object host_port redis_pass

  -- The branch of a backup with a schedule, under the version of the CronJob API
  unfoldable pub reconcile_version :
      RedisBackup → String → String → String → String → String → List Pod → M S Result
  unfolding create_backup sync_cron_job record_info
  reconcile_version backup version namespace backup_pvc host_port redis_pass podlist = do
    got ←
        call
          (get_by_version version (record { namespace = namespace; name = backup.metadata.name }))
    elim (got.error) [
      | some err ↦
          if err.is_not_found
          then create_backup env backup "backupCronjob" version backup_pvc podlist
              (record_info env backup (backup_info backup.spec))
          else pure (requeued err)
      | none ↦
          sync_cron_job backup (backup_info backup.spec) version namespace backup_pvc host_port
            redis_pass podlist
    ]

  -- The branch of a backup with a schedule
  unfoldable pub reconcile_cron_job :
      RedisBackup → String → String → String → String → List Pod → M S Result
  unfolding reconcile_version
  reconcile_cron_job backup namespace backup_pvc host_port redis_pass podlist = do
    version ← get_cron_job_version
    reconcile_version backup version namespace backup_pvc host_port redis_pass podlist

  -- The pods are known: the claim of the running master is backed up.
  unfoldable pub reconcile_pods : RedisBackup → String → String → List Pod → M S Result
  unfolding search_master reconcile_job reconcile_cron_job
  reconcile_pods backup namespace redis_pass podlist =
      let host_port =
        "rfs-" +++ backup.spec.cluster_name +++ "." +++ backup.metadata.namespace
        +++ ".svc.cluster.local:26379" in
      elim (search_master podlist) [
        | not_running ↦ pure done
        | no_master ↦ pure done
        | broken ↦ or_panic none
        | found backup_pvc ↦
            if backup_pvc == ""
            then pure done
            else if backup.spec.backup_schedule == ""
            then reconcile_job backup namespace backup_pvc host_port redis_pass podlist
            else reconcile_cron_job backup namespace backup_pvc host_port redis_pass podlist
      ]

  -- What follows the read of the resource, whatever stands in the struct: the secret and the pods.
  unfoldable pub reconcile_instance : RedisBackup → String → M S Result
  unfolding reconcile_pods
  reconcile_instance backup namespace = do
    secret ← call (
        env.api.get_secret
          (record { namespace = namespace; name = backup.spec.cluster_name +++ "-redis-auth" }))
    elim (secret.error) [
      | some err ↦ pure (requeued err)
      | none ↦ do
        pods ← call (env.api.list_pods (pod_labels "redis" backup.spec.cluster_name))
        elim (pods.error) [
          | some err ↦ pure done
          | none ↦ reconcile_pods backup namespace (get "password" secret.value.content) pods.value
        ]
    ]

  -- `Reconcile`. An error of `Get` other than "not found" is not returned.
  unfoldable pub reconcile : NamespacedName → M S Result
  unfolding reconcile_instance
  reconcile req = do
    got ← call (env.api.get_redis_backup req)
    elim (got.error) [
      | none ↦ reconcile_instance got.value req.namespace
      | some err ↦
          if err.is_not_found then pure done else reconcile_instance got.value req.namespace
    ]
