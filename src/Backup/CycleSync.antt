-- ===== src/Backup/CycleSync.antt =====
-- `CycleSync` of RedisBackup: the periodic check that the CronJob still backs up the master's
-- claim.
pub mod Deletes
use redis_backup_operator.Base.{
  String, ◌==◌, Bool, true, false, Option, none, some, List, [], ◌∷◌, get_elem?, if◌then◌else◌,
}
use redis_backup_operator.Types.Kubernetes.{NamespacedName, Pod, CronJob, cron_job}
use redis_backup_operator.Types.Backup.{RedisBackup}
use redis_backup_operator.Runtime.{
  M, pure, call, send, or_panic, ◌>>=◌, GoError, deletes, Environment,
}
use redis_backup_operator.Cronjob.{sentinel_name_label}
use redis_backup_operator.Backup.{
  found, not_running, no_master, broken, search_master, first_claim, pod_labels,
}

module _ {S : Type 0} (env : Environment S) where
  -- The first CronJob of the list is deleted if its claim is not `backup_pvc`.
  unfoldable pub check_claim : String → List CronJob → M S (Option GoError)
  unfolding first_claim
  check_claim backup_pvc [] = pure none
  check_claim backup_pvc (target ∷ targets) = do
    backup_pvc_old ← or_panic (first_claim target.spec.job_template.template)
    if backup_pvc == backup_pvc_old
        then pure none
        else send (deletes (cron_job target)) (env.api.delete (cron_job target))

  -- The CronJobs that carry the label of the cluster, in the namespace
  unfoldable pub check_cron_jobs : String → String → String → M S (Option GoError)
  unfolding check_claim
  check_cron_jobs cluster_name namespace backup_pvc = do
    targets ← call (env.api.list_cron_jobs ((sentinel_name_label, cluster_name) ∷ []) namespace)
    elim (targets.error) [
      | some err ↦ pure (some err)
      | none ↦ check_claim backup_pvc targets.value
    ]

  -- The pods were listed.
  unfoldable pub check_pods : String → String → List Pod → M S (Option GoError)
  unfolding search_master check_cron_jobs
  check_pods cluster_name namespace [] = pure none
  check_pods cluster_name namespace (p ∷ pods) = elim (search_master (p ∷ pods)) [
    | not_running ↦ pure none
    | no_master ↦ pure none
    | broken ↦ or_panic none
    | found backup_pvc ↦
        if backup_pvc == "" then pure none else check_cron_jobs cluster_name namespace backup_pvc
  ]

  -- `CycleSync`. If the pods cannot be listed, the check goes on with the empty claim.
  unfoldable pub cycle_sync : String → String → M S (Option GoError)
  unfolding check_pods check_cron_jobs
  cycle_sync namespace name = do
    got ← call (env.api.get_redis_backup (record { namespace = namespace; name = name }))
    elim (got.error) [
      | some err ↦ pure none
      | none ↦ do
        pods ← call (env.api.list_pods (pod_labels "redis" got.value.spec.cluster_name))
        elim (pods.error) [
          | some err ↦ check_cron_jobs got.value.spec.cluster_name namespace ""
          | none ↦ check_pods got.value.spec.cluster_name namespace pods.value
        ]
    ]
