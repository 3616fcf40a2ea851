-- ===== src/Tests/Cronjob.antt =====
-- What MakeCronJob builds for the small cluster, and the versions of the CronJob API.
use redis_backup_operator.Base.{String, ◌≡◌, refl, false, Option, none, some, List, [], ◌∷◌}
use redis_backup_operator.Types.Kubernetes.{Object, Pod, CronJob, ApiResourceList}
use redis_backup_operator.Types.Backup.{RedisBackup}
use redis_backup_operator.Runtime.{World, returned}
use redis_backup_operator.Cronjob.{make_cron_job, make_cron_job_on, exist_cron_job}
use redis_backup_operator.Cronjob.Template.{job_spec_of}
use redis_backup_operator.Cronjob.Builds.{
  IsLabelled, IsBackupPod, make_cron_job-IsLabelled, make_cron_job-IsBackupPod,
}
use redis_backup_operator.Tests.Cluster.{
  Cluster, environment, backup_of, cluster_of, pod_of, world_of,
}

abbrev no_env : String → Option String
no_env key = none

abbrev scheduled_backup : RedisBackup
scheduled_backup = backup_of "0 0 * * *"

abbrev pods : List Pod
pods = pod_of "master" "Running" "redis-data-0" ∷ []

abbrev no_pointer : Option CronJob
no_pointer = none

-- The CronJob of `batch/v1`, and the Job that the same backup runs with no schedule
abbrev built_cron_job : Object
built_cron_job =
    make_cron_job_on no_env "backupCronjob" "0 0 * * *" "batch/v1" "redis-data-0" scheduled_backup
      (pod_of "master" "Running" "redis-data-0")

abbrev built_job : Object
built_job =
    make_cron_job_on no_env "backupCronjob" "" "" "redis-data-0" scheduled_backup
      (pod_of "master" "Running" "redis-data-0")

builds_cron_job :
    make_cron_job no_env "backupCronjob" "0 0 * * *" "batch/v1" "redis-data-0" "cache"
      scheduled_backup pods
    ≡ some built_cron_job
unfolding make_cron_job
builds_cron_job = refl

builds_job :
    make_cron_job no_env "backupCronjob" "" "" "redis-data-0" "cache" scheduled_backup pods
    ≡ some built_job
unfolding make_cron_job
builds_job = refl

make_cron_job-IsLabelled_example :
    IsLabelled no_env "backupCronjob" "0 0 * * *" "batch/v1" "redis-data-0" "cache" scheduled_backup
      built_cron_job
make_cron_job-IsLabelled_example =
    make_cron_job-IsLabelled no_env "backupCronjob" "0 0 * * *" "batch/v1" "redis-data-0" "cache"
      scheduled_backup pods builds_cron_job

make_cron_job-IsBackupPod_example : IsBackupPod "redis-data-0" (job_spec_of built_cron_job).template
make_cron_job-IsBackupPod_example =
    make_cron_job-IsBackupPod no_env "backupCronjob" "0 0 * * *" "batch/v1" "redis-data-0" "cache"
      scheduled_backup pods builds_cron_job

abbrev without_cron_job : World Cluster
without_cron_job = world_of (cluster_of scheduled_backup "redis-data-0" [])

finds_nothing :
    (exist_cron_job "nightly" "prod" environment.api.get_cron_job without_cron_job).0
    ≡ returned (false, none, none)
unfolding exist_cron_job
finds_nothing = refl

abbrev batch_v1 : ApiResourceList
batch_v1 = record { group_version = "batch/v1"; kinds = "Job" ∷ "CronJob" ∷ [] }

abbrev batch_v1beta1 : ApiResourceList
batch_v1beta1 = record { group_version = "batch/v1beta1"; kinds = "CronJob" ∷ [] }

abbrev apps_v1 : ApiResourceList
apps_v1 = record { group_version = "apps/v1"; kinds = "Deployment" ∷ [] }
