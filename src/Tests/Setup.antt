-- ===== src/Tests/Setup.antt =====
-- A CronJob that is built under the watched version.
use redis_backup_operator.Base.{◌≡◌, refl, inr, some, List, [], ◌∷◌}
use redis_backup_operator.Types.Kubernetes.{Pod, Object}
use redis_backup_operator.Cronjob.{make_cron_job, make_cron_job_on}
use redis_backup_operator.Setup.Owned.{IsOwned, make_cron_job-IsOwned}
use redis_backup_operator.Tests.Cluster.{environment, backup_of, pod_of}

abbrev pods : List Pod
pods = pod_of "master" "Running" "redis-data-0" ∷ []

abbrev nightly : Object
nightly =
    make_cron_job_on environment.host.lookup_env "backupCronjob" "0 0 * * *" "batch/v1"
      "redis-data-0" (backup_of "0 0 * * *") (pod_of "master" "Running" "redis-data-0")

builds :
    make_cron_job environment.host.lookup_env "backupCronjob" "0 0 * * *" "batch/v1" "redis-data-0"
      "cache"
      (backup_of "0 0 * * *")
      pods
    ≡ some nightly
unfolding make_cron_job
builds = refl

make_cron_job-IsOwned_example : IsOwned "batch/v1" nightly
make_cron_job-IsOwned_example =
    make_cron_job-IsOwned environment.host.lookup_env "backupCronjob" "0 0 * * *" "batch/v1"
      "redis-data-0" "cache" (backup_of "0 0 * * *") "batch/v1" pods (inr refl) builds
