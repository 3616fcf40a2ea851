-- ===== src/Tests/Backup.antt =====
-- The reconciler and the periodic check of a RedisBackup on the small cluster.
use mathlib.Core.Bool.{false≢true}
use redis_backup_operator.Base.{
  ◌==◌, sym, ap, ◌≤◌, String, ◌≡◌, refl, ◌≢◌, ◌⊎◌, inr, ◌↔◌, true, false, some, List, [], ◌∷◌,
  length,
}
use redis_backup_operator.Types.Kubernetes.{
  NamespacedName, Pod, CronJob, cron_job, Object, ApiResourceList,
}
use redis_backup_operator.Runtime.{World, Outcome, Environment, deletes}
use redis_backup_operator.Backup.{found, search_master, first_claim, scan_versions}
use redis_backup_operator.Backup.Master.{IsFirstMaster, search_master-found_iff}
use redis_backup_operator.Backup.Reconcile.{reconcile}
use redis_backup_operator.Backup.Reconcile.Writes.{PassTrace, HistoryTrace}
use redis_backup_operator.Backup.Reconcile.Settings.{IsRecorded}
use redis_backup_operator.Backup.Reconcile.Requests.{reconcile-PassTrace}
use redis_backup_operator.Backup.Reconcile.Answers.{Answers}
use redis_backup_operator.Backup.Reconcile.Beta.{Rebuilds, reconcile-Rebuilds}
use redis_backup_operator.Backup.Reconcile.Counts.{
  deletions, object_requests, reconcile-counts, reconcile-single_shot,
}
use redis_backup_operator.Backup.Reconcile.Decisions.{reconcile-rebuilds}
use redis_backup_operator.Backup.Steps.{backup_info, with_info}
use redis_backup_operator.Cronjob.{make_cron_job, make_cron_job_on}
use redis_backup_operator.Types.Backup.{RedisBackup}
use redis_backup_operator.Base.Text.{lookup}
use redis_backup_operator.Backup.Reconcile.Settling.{reconcile-settled}
use redis_backup_operator.Backup.CycleSync.{cycle_sync}
use redis_backup_operator.Backup.CycleSync.Deletes.{IsCondemned, cycle_sync-log, cycle_sync-deletes}
use redis_backup_operator.Tests.Cluster.{
  Cluster, environment, cluster_of, world_of, backup_of, pod_of, cron_job_of, unavailable,
}

abbrev nightly : NamespacedName
nightly = record { namespace = "prod"; name = "nightly" }

abbrev single_shot : World Cluster
single_shot = world_of (cluster_of (backup_of "") "redis-data-0" [])

abbrev scheduled : World Cluster
scheduled = world_of (cluster_of (backup_of "0 0 * * *") "redis-data-0" [])

-- The CronJob backs up a claim that the master no longer has.
abbrev stale : World Cluster
stale =
    world_of (
      cluster_of (backup_of "0 0 * * *") "redis-data-0" (cron_job_of "nightly" "redis-data-1" ∷ []))

-- The CronJob is right, and the pods cannot be listed.
abbrev blind : World Cluster
blind =
    world_of
      (record (cluster_of (backup_of "0 0 * * *") "redis-data-0"
        (cron_job_of "nightly" "redis-data-0" ∷ [])) { pods_answer = false })

reconcile-PassTrace_example :
    PassTrace environment
      (backup_of "0 0 * * *")
      (pod_of "slave" "Running" "redis-data-1" ∷ pod_of "master" "Running" "redis-data-0" ∷ [])
      []
      (reconcile environment nightly scheduled).1.log
unfolding lookup
reconcile-PassTrace_example = reconcile-PassTrace environment nightly scheduled

reconcile-counts_example :
    (length (reconcile environment nightly scheduled).1.log ≤ 2)
    × (object_requests (reconcile environment nightly scheduled).1.log ≤ 1)
reconcile-counts_example = reconcile-counts environment nightly scheduled

reconcile-single_shot_example : deletions (reconcile environment nightly single_shot).1.log ≡ 0
reconcile-single_shot_example = reconcile-single_shot environment nightly single_shot refl

cycle_sync-log_example :
    ((cycle_sync environment "prod" "nightly" stale).1.log ≡ [])
    ⊎ ((t : CronJob) × IsCondemned environment "prod" "nightly" stale t
        × ((cycle_sync environment "prod" "nightly" stale).1.log ≡ deletes (cron_job t) ∷ []))
cycle_sync-log_example = cycle_sync-log environment "prod" "nightly" stale

abbrev blind_condemns :
    IsCondemned environment "prod" "nightly" blind (cron_job_of "nightly" "redis-data-0")
unfolding first_claim
blind_condemns = record {
  read = refl;
  claim = "";
  wanted = inr (unavailable, refl, refl);
  answered = refl;
  stale = record {
    first = refl;
    old = "redis-data-0";
    claimed = refl;
    differs = λ e. false≢true (sym (ap (λ s. s == "") e));
  };
}

-- The pods cannot be listed, and the CronJob of the right claim is deleted.
cycle_sync-deletes_example :
    (cycle_sync environment "prod" "nightly" blind).1.log
    ≡ deletes (cron_job (cron_job_of "nightly" "redis-data-0")) ∷ []
cycle_sync-deletes_example =
    cycle_sync-deletes environment "prod" "nightly" blind (cron_job_of "nightly" "redis-data-0")
      blind_condemns

search_master-found_iff_example :
    (search_master (pod_of "master" "Running" "redis-data-0" ∷ []) ≡ found "redis-data-0") ↔ (
      (p : Pod) × IsFirstMaster p (pod_of "master" "Running" "redis-data-0" ∷ [])
      × (p.phase ≡ "Running")
      × (first_claim p.spec ≡ some "redis-data-0"))
search_master-found_iff_example =
    search_master-found_iff (pod_of "master" "Running" "redis-data-0" ∷ []) "redis-data-0"

-- The pods of the small cluster, the first of which gives the nodes
abbrev pods : List Pod
pods = pod_of "slave" "Running" "redis-data-1" ∷ pod_of "master" "Running" "redis-data-0" ∷ []

finds_master : search_master pods ≡ found "redis-data-0"
unfolding search_master first_claim lookup
finds_master = refl

abbrev claim : String
claim = "redis-data-0"

claim-non_empty : claim ≢ ""
claim-non_empty e = false≢true (ap (λ s. s == "") e)

abbrev built : String → RedisBackup → String → Object
built key backup version =
    make_cron_job_on environment.host.lookup_env key backup.spec.backup_schedule version
      "redis-data-0" backup (pod_of "slave" "Running" "redis-data-1")

builds :
    (key version : String) (backup : RedisBackup)
    → make_cron_job environment.host.lookup_env key backup.spec.backup_schedule version
        "redis-data-0" backup.spec.cluster_name backup pods
      ≡ some (built key backup version)
unfolding make_cron_job
builds key version backup = refl

abbrev served : List ApiResourceList
served = record { group_version = "batch/v1"; kinds = "Job" ∷ "CronJob" ∷ [] } ∷ []

discovers : scan_versions served "" ≡ "batch/v1"
unfolding scan_versions
discovers = refl

-- Nothing is recorded in the status yet, so that the CronJob is rebuilt.
reconcile-rebuilds_example :
    ((¬ IsRecorded (backup_of "0 0 * * *").spec (backup_of "0 0 * * *").status.last_backup_info)
      × ((reconcile environment nightly stale).1.log
          ≡ deletes (built "backupCronjob" (backup_of "0 0 * * *") (scan_versions served "")) ∷ []))
    ⊎ (IsRecorded (backup_of "0 0 * * *").spec (backup_of "0 0 * * *").status.last_backup_info
        × HistoryTrace environment
            (backup_of "0 0 * * *")
            (backup_info (backup_of "0 0 * * *").spec)
            []
            (reconcile environment nightly stale).1.log)
unfolding lookup
reconcile-rebuilds_example =
    reconcile-rebuilds environment nightly stale "redis-data-0" refl refl refl finds_master
      claim-non_empty served
      (built "backupCronjob" (backup_of "0 0 * * *") (scan_versions served ""))
      (λ e. false≢true (ap (λ s. s == "") e)) refl (ap (λ v. v == "batch/v1beta1") discovers) refl
      (builds "backupCronjob" (scan_versions served "") (backup_of "0 0 * * *"))

-- The settings are recorded, and the CronJob is there.
abbrev settled : World Cluster
settled = world_of (
    cluster_of (with_info (backup_of "0 0 * * *") (backup_info (backup_of "0 0 * * *").spec))
      "redis-data-0" (cron_job_of "nightly" "redis-data-0" ∷ []))

reconcile-settled_example :
    HistoryTrace environment settled.cluster.backup
      (backup_info (backup_of "0 0 * * *").spec)
      []
      (reconcile environment nightly settled).1.log
unfolding lookup
reconcile-settled_example =
    reconcile-settled environment nightly settled "redis-data-0" served
      (built "backupCronjob" settled.cluster.backup (scan_versions served "")) refl refl refl
      finds_master claim-non_empty (λ e. false≢true (ap (λ s. s == "") e)) refl
      (builds "backupCronjob" (scan_versions served "") settled.cluster.backup)
      (ap (λ v. v == "batch/v1beta1") discovers) refl refl

-- The status update of this cluster is refused.
abbrev refusing : Environment Cluster
refusing = record environment {
  api = record (environment.api) {
    update_backup_status = λ b s. (record { value = b; error = some unavailable }, s);
  };
}

abbrev beta_served : List ApiResourceList
beta_served = record { group_version = "batch/v1beta1"; kinds = "CronJob" ∷ [] } ∷ []

-- The small cluster with an old API server
abbrev beta : Environment Cluster
beta = record environment {
  api = record (environment.api) {
    server_preferred_resources = λ s. (Outcome.returned beta_served, s);
  };
}

beta-discovered : (scan_versions beta_served "" == "batch/v1beta1") ≡ true
unfolding scan_versions
beta-discovered = refl

reconcile-Rebuilds_example :
    Rebuilds beta nightly stale "redis-data-0" "redis-data-1"
      (built "backupCronjob" (backup_of "0 0 * * *") (scan_versions beta_served ""))
unfolding lookup first_claim
reconcile-Rebuilds_example =
    reconcile-Rebuilds beta nightly stale "redis-data-0" "redis-data-1" refl refl refl finds_master
      claim-non_empty beta_served
      (built "backupCronjob" (backup_of "0 0 * * *") (scan_versions beta_served ""))
      (λ e. false≢true (ap (λ s. s == "") e)) refl beta-discovered refl refl refl
      (builds "backupCronjob" (scan_versions beta_served "") (backup_of "0 0 * * *"))
