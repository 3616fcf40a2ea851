-- ===== src/Backup/Convergence/Store.antt =====
-- A cluster as one backup with a schedule sees it: what its API server is documented to answer and
-- to store. The specification, the secret and the served versions stay; the pods may change.
use redis_backup_operator.Base.{
  String, Bool, ◌==◌, ◌≡◌, ◌≢◌, false, Option, none, some, List, [], ◌∷◌, true, get_elem?,
  if◌then◌else◌,
}
use redis_backup_operator.Base.Text.{◌+++◌, lookup}
use redis_backup_operator.Types.Kubernetes.{
  NamespacedName, ObjectMeta, Pod, Secret, CronJob, cron_job, ApiResourceList,
}
use redis_backup_operator.Types.Backup.{
  RedisBackup, RedisBackupSpec, RedisBackupStatus, BackupCondition,
}
use redis_backup_operator.Backup.Reconcile.Reads.{success}
use redis_backup_operator.Runtime.{Reply, GoError, returned, FailoverOptions, Environment}
use redis_backup_operator.Cronjob.{cron_job_version_v1beta1}
use redis_backup_operator.Backup.{found, search_master, pod_labels, scan_versions}

abbrev pub cron_job_list : Option CronJob → List CronJob
cron_job_list none = []
cron_job_list (some c) = c ∷ []

-- The CronJob has the label of the cluster.
abbrev pub is_labelled : String → CronJob → Bool
is_labelled cluster_name c =
    elim (lookup "redis-sentinel-operator/cluster-name" c.metadata.labels) [
      | none ↦ false
      | some value ↦ value == cluster_name
    ]

-- The CronJobs that have the label of the cluster
abbrev pub selected : String → List CronJob → List CronJob
selected cluster_name [] = []
selected cluster_name (c ∷ cs) =
    let rest = selected cluster_name cs in if is_labelled cluster_name c then c ∷ rest else rest

-- The object has the name and the namespace.
abbrev pub IsNamed : NamespacedName → ObjectMeta → Type 0
IsNamed key m = (m.name ≡ key.name) × (m.namespace ≡ key.namespace)

pub record Store {S : Type 0} (env : Environment S) (req : NamespacedName) : Type 0 where
  pub metadata : ObjectMeta
  pub spec : RedisBackupSpec
  pub status_at : S → RedisBackupStatus
  pub cron_job_at : S → Option CronJob
  pub secret : Secret
  pub pods_at : S → List Pod
  -- the claim of the running master
  pub claim_at : S → String
  pub versions : List ApiResourceList
  -- what a look-up answers where there is no CronJob
  pub missing : Reply CronJob
  pub missing_error : GoError
  pub owned : CronJob → CronJob
  pub named : IsNamed req metadata
  pub scheduled : spec.backup_schedule ≢ ""
  pub master : (s : S) → search_master (pods_at s) ≡ found (claim_at s)
  pub claimed : (s : S) → claim_at s ≢ ""
  pub stable : (scan_versions versions "" == cron_job_version_v1beta1) ≡ false
  pub missing_fails : missing.error ≡ some missing_error
  pub missing_not_found : missing_error.is_not_found ≡ true
  -- Reads answer what is stored, and change nothing.
  pub get_backup :
      (s : S)
      → env.api.get_redis_backup req s
        ≡ (success (record { metadata = metadata; spec = spec; status = status_at s }), s)
  pub get_secret :
      (s : S)
      → env.api.get_secret
          (record { namespace = req.namespace; name = spec.cluster_name +++ "-redis-auth" })
          s
        ≡ (success secret, s)
  pub list_pods :
      (s : S)
      → env.api.list_pods (pod_labels "redis" spec.cluster_name) s ≡ (success (pods_at s), s)
  pub discover : (s : S) → env.api.server_preferred_resources s ≡ (returned versions, s)
  pub get_cron_job :
      (s : S)
      → env.api.get_cron_job (record { namespace = req.namespace; name = metadata.name }) s
        ≡ (elim (cron_job_at s) [ none ↦ missing | some c ↦ success c ], s)
  -- A list by a label answers what is stored with it; no other CronJob has the label of the
  -- cluster.
  pub list_cron_jobs :
      (s : S)
      → env.api.list_cron_jobs
          (("redis-sentinel-operator/cluster-name", spec.cluster_name) ∷ [])
          req.namespace
          s
        ≡ (success (selected spec.cluster_name (cron_job_list (cron_job_at s))), s)
  pub redis_get :
      (options : FailoverOptions) (k : String) (s : S) → (env.redis.failover_get options k s).1 ≡ s
  -- what stands in redis is a list of records, or nothing
  pub records :
      (options : FailoverOptions) (k : String) (s : S)
      → (env.redis.failover_get options k s).0.val ≢ ""
      → (c : BackupCondition) × (get_elem?
            (env.host.unmarshal_conditions (env.redis.failover_get options k s).0.val)
            0
          ≡ some c)
  -- The owner is written into the object's metadata, and leaves its name and labels.
  pub set_owner :
      (b : RedisBackup) (c : CronJob)
      → env.api.set_controller_reference b (cron_job c) ≡ success (cron_job (owned c))
  pub owned_spec : (c : CronJob) → (owned c).spec ≡ c.spec
  pub owned_labels : (c : CronJob) → (owned c).metadata.labels ≡ c.metadata.labels
  pub owned_named : (c : CronJob) → IsNamed req c.metadata → IsNamed req (owned c).metadata
  -- Writes are granted, and store what they ask for.
  pub create_answers :
      (c : CronJob) (s : S)
      → IsNamed req c.metadata
      → cron_job_at s ≡ none
      → (env.api.create (cron_job c) s).0 ≡ none
  pub create_stores :
      (c : CronJob) (s : S)
      → IsNamed req c.metadata
      → cron_job_at s ≡ none
      → cron_job_at (env.api.create (cron_job c) s).1 ≡ some c
  pub create_status :
      (c : CronJob) (s : S) → status_at (env.api.create (cron_job c) s).1 ≡ status_at s
  pub create_claim : (c : CronJob) (s : S) → claim_at (env.api.create (cron_job c) s).1 ≡ claim_at s
  pub delete_answers :
      (c : CronJob) (s : S)
      → IsNamed req c.metadata
      → cron_job_at s ≢ none
      → (env.api.delete (cron_job c) s).0 ≡ none
  pub delete_stores :
      (c : CronJob) (s : S)
      → IsNamed req c.metadata
      → cron_job_at (env.api.delete (cron_job c) s).1 ≡ none
  pub delete_status :
      (c : CronJob) (s : S) → status_at (env.api.delete (cron_job c) s).1 ≡ status_at s
  pub delete_claim : (c : CronJob) (s : S) → claim_at (env.api.delete (cron_job c) s).1 ≡ claim_at s
  pub update_answers :
      (st : RedisBackupStatus) (s : S)
      → (env.api.update_backup_status
          (record { metadata = metadata; spec = spec; status = st })
          s).0
        ≡ success (record { metadata = metadata; spec = spec; status = st })
  pub update_stores :
      (st : RedisBackupStatus) (s : S)
      → status_at
          (env.api.update_backup_status
            (record { metadata = metadata; spec = spec; status = st })
            s).1
        ≡ st
  pub update_cron_job :
      (st : RedisBackupStatus) (s : S)
      → cron_job_at
          (env.api.update_backup_status
            (record { metadata = metadata; spec = spec; status = st })
            s).1
        ≡ cron_job_at s
  pub update_claim :
      (st : RedisBackupStatus) (s : S)
      → claim_at
          (env.api.update_backup_status
            (record { metadata = metadata; spec = spec; status = st })
            s).1
        ≡ claim_at s
