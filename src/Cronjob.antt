-- ===== src/Cronjob.antt =====
-- utils/cronjob.go and utils/constants/constants.go: the Job or CronJob that runs a backup, and
-- the lookups of a CronJob.
pub mod Template
pub mod Builds
pub mod Exists
use redis_backup_operator.Base.{
  String, ◌==◌, Bool, true, false, Option, none, some, List, [], ◌∷◌, ◌++◌, ℤ, pos, get_elem?,
  if◌then◌else◌, is_none,
}
use redis_backup_operator.Base.Text.{◌+++◌, Dict}
use redis_backup_operator.Types.Kubernetes.{
  NamespacedName, ObjectMeta, SecretKeySelector, EnvVar, VolumeMount, Container, Volume, PodSpec,
  Pod, JobSpec, Job, CronJobSpec, CronJob, Object, job, cron_job, cron_job_v1beta1,
}
use redis_backup_operator.Types.Backup.{RedisBackup}
use redis_backup_operator.Runtime.{M, pure, call, ◌>>=◌, Reply, GoError}

abbrev pub cron_job_kind : String
cron_job_kind = "CronJob"

abbrev pub cron_job_version_v1beta1 : String
cron_job_version_v1beta1 = "batch/v1beta1"

abbrev pub sentinel_name_label : String
sentinel_name_label = "redis-sentinel-operator/cluster-name"

-- `GetEnvDefault`
unfoldable pub get_env_default : (String → Option String) → String → String → String
get_env_default lookup_env key def_val = elim (lookup_env key) [ none ↦ def_val | some val ↦ val ]

-- An entry of the environment that is read from a key of a secret; `Optional` is `&boolTrue`.
abbrev pub secret_env : String → String → String → EnvVar
secret_env name secret key = record {
  name = name;
  value = "";
  secret_key_ref = some (record { name = secret; key = key; optional = some true });
}

abbrev pub plain_env : String → String → EnvVar
plain_env name value = record { name = name; value = value; secret_key_ref = none }

-- `volumedir`
abbrev pub volumedir : String → Volume
volumedir backup_pvc = record {
  name = "data";
  persistent_volume_claim = some (record { claim_name = backup_pvc });
}

-- `container.Env` with the entry `jobName`, which each branch appends
abbrev pub container_env : RedisBackup → List EnvVar
container_env backup =
    (secret_env "S3Region" backup.spec.backup_secret_name "S3Region"
      ∷ secret_env "S3Endpoint" backup.spec.backup_secret_name "S3Endpoint"
      ∷ secret_env "S3AccessKey" backup.spec.backup_secret_name "S3AccessKey"
      ∷ secret_env "S3SecretKey" backup.spec.backup_secret_name "S3SecretKey"
      ∷ secret_env "S3Bucket" backup.spec.backup_secret_name "S3Bucket"
      ∷ secret_env "redisPass" (backup.spec.cluster_name +++ "-redis-auth") "password"
      ∷ plain_env "objectName" backup.metadata.name
      ∷ plain_env "redisClusterName" backup.spec.cluster_name
      ∷ plain_env "backupURL" backup.spec.backup_url
      ∷ [])
    ++ plain_env "jobName" backup.metadata.name ∷ []

-- `container`
abbrev pub backup_container : (String → Option String) → String → RedisBackup → Container
backup_container lookup_env redis_key backup = record {
  name = "redis-backup";
  image = get_env_default lookup_env "backup_image" "172.16.5.171/redis/s3cmd:latest";
  command = "sh" ∷ "-c" ∷ [];
  args = ("/usr/bin/python3 /s3/redis_backup.py " +++ redis_key +++ ";") ∷ [];
  env = container_env backup;
  volume_mounts = record { name = "data"; mount_path = "/data" } ∷ [];
}

-- The spec of the job that each branch fills in, on the nodes of the pod `first`.
unfoldable pub backup_job_spec :
    (String → Option String) → String → String → RedisBackup → Pod → JobSpec
backup_job_spec lookup_env redis_key backup_pvc backup first = record {
  active_deadline_seconds = some (pos 1800);
  backoff_limit = some (pos 1);
  ttl_seconds_after_finished = some (pos 3600);
  template = record {
    volumes = volumedir backup_pvc ∷ [];
    containers = backup_container lookup_env redis_key backup ∷ [];
    restart_policy = "Never";
    node_selector = if is_none first.spec.node_selector then none else first.spec.node_selector;
    tolerations = if is_none first.spec.tolerations then none else first.spec.tolerations;
  };
}

-- The name, namespace and label that each branch sets.
abbrev pub backup_metadata : RedisBackup → ObjectMeta
backup_metadata backup = record {
  name = backup.metadata.name;
  namespace = backup.metadata.namespace;
  labels = (sentinel_name_label, backup.spec.cluster_name) ∷ [];
  creation_timestamp = none;
  owners = [];
}

unfoldable pub backup_cron_job_spec : RedisBackup → JobSpec → CronJobSpec
backup_cron_job_spec backup job_template = record {
  schedule = backup.spec.backup_schedule;
  concurrency_policy = "Forbid";
  failed_jobs_history_limit = some (pos 10);
  successful_jobs_history_limit = some (pos 20);
  job_template = job_template;
}

-- `MakeCronJob` where `podlist.Items[0]` is `first`.
unfoldable pub make_cron_job_on :
    (String → Option String) → String → String → String → String → RedisBackup → Pod → Object
unfolding backup_cron_job_spec backup_job_spec
make_cron_job_on lookup_env redis_key backup_schedule cron_job_version backup_pvc backup first =
    let spec = backup_job_spec lookup_env redis_key backup_pvc backup first in
    if backup_schedule == ""
    then job (record { metadata = backup_metadata backup; spec = spec })
    else if cron_job_version == cron_job_version_v1beta1
    then cron_job_v1beta1
        (record { metadata = backup_metadata backup; spec = backup_cron_job_spec backup spec })
    else cron_job
        (record { metadata = backup_metadata backup; spec = backup_cron_job_spec backup spec })

-- `MakeCronJob`; `none` is the panic of `podlist.Items[0]` on an empty list.
unfoldable pub make_cron_job :
    (String → Option String)
    → String
    → String
    → String
    → String
    → String
    → RedisBackup
    → List Pod
    → Option Object
unfolding make_cron_job_on
make_cron_job lookup_env redis_key backup_schedule cron_job_version backup_pvc cluster_name backup
      podlist =
    elim (get_elem? podlist 0) [
      | none ↦ none
      | some first ↦ some (
          make_cron_job_on lookup_env redis_key backup_schedule cron_job_version backup_pvc backup
            first)
    ]

-- The three results of `ExistCronJob` from what `Get` answered.
abbrev pub existence : Reply CronJob → Bool × Option CronJob × Option GoError
existence reply = elim (reply.error) [
  | none ↦ (true, some reply.value, none)
  | some err ↦ if err.is_not_found then (false, none, none) else (true, some reply.value, some err)
]

-- `ExistCronJob` and `ExistCronJobV1beta1`, by the client's `Get` for the version.
unfoldable pub exist_cron_job :
    {S : Type 0}
    → String
    → String
    → (NamespacedName → S → Reply CronJob × S)
    → M S (Bool × Option CronJob × Option GoError)
exist_cron_job name namespace get = do
  reply ← call (get (record { namespace = namespace; name = name }))
  pure (existence reply)
