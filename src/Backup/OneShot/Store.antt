-- ===== src/Backup/OneShot/Store.antt =====
-- A cluster as one backup with no schedule sees it: what its servers are documented to answer and
-- to store. The specification and the secret stay; the pods may change.
use redis_backup_operator.Base.{
  String, ◌==◌, ◌≡◌, ◌≢◌, true, false, Option, none, some, List, [], ◌∷◌, pos, is_none,
}
use redis_backup_operator.Base.Text.{◌+++◌, get}
use redis_backup_operator.Types.Kubernetes.{NamespacedName, ObjectMeta, Pod, Secret, Job, job}
use redis_backup_operator.Types.Backup.{RedisBackup, RedisBackupSpec, RedisBackupStatus}
use redis_backup_operator.Runtime.{Reply, GoError, FailoverOptions, FailoverReply, Environment}
use redis_backup_operator.Backup.{found, search_master, pod_labels}
use redis_backup_operator.Backup.Convergence.Store.{IsNamed}
use redis_backup_operator.Backup.Reconcile.Reads.{success}

-- The sentinel of the cluster
abbrev pub sentinel_of : ObjectMeta → RedisBackupSpec → String
sentinel_of metadata spec =
    "rfs-" +++ spec.cluster_name +++ "." +++ metadata.namespace +++ ".svc.cluster.local:26379"

abbrev pub options_at : ObjectMeta → RedisBackupSpec → Secret → FailoverOptions
options_at metadata spec secret = record {
  master_name = "mymaster";
  sentinel_addrs = sentinel_of metadata spec ∷ [];
  db = pos 15;
  password = get "password" secret.content;
}

-- What the client makes of a reply
abbrev pub text_of : FailoverReply → String
text_of reply = elim (reply.close_error) [ none ↦ reply.val | some err ↦ "" ]

pub record Store {S : Type 0} (env : Environment S) (req : NamespacedName) : Type 0 where
  pub metadata : ObjectMeta
  pub spec : RedisBackupSpec
  pub secret : Secret
  pub status_at : S → RedisBackupStatus
  pub job_at : S → Option Job
  -- the record under the backup's name in redis
  pub left_at : S → String
  pub pods_at : S → List Pod
  -- the claim of the running master
  pub claim_at : S → String
  -- what a look-up answers where there is no Job
  pub missing : Reply Job
  pub missing_error : GoError
  pub owned : Job → Job
  pub named : IsNamed req metadata
  pub unscheduled : (spec.backup_schedule == "") ≡ true
  pub master : (s : S) → search_master (pods_at s) ≡ found (claim_at s)
  pub claimed : (s : S) → claim_at s ≢ ""
  pub missing_fails : missing.error ≡ some missing_error
  pub missing_not_found : missing_error.is_not_found ≡ true
  -- a stored object has its time of creation
  pub stamped :
      (s : S) (j : Job) → job_at s ≡ some j → is_none j.metadata.creation_timestamp ≡ false
  -- Reads answer what is stored, and change nothing.
  pub get_backup :
      (s : S)
      → env.api.get_redis_backup req s
        ≡ (success (record { metadata = metadata; spec = spec; status = status_at s }), s)
  pub get_secret :
      (s : S)
      → env.api.get_secret
          (record { namespace = req.namespace; name = spec.cluster_name +++ "-redis-auth" })
          s
        ≡ (success secret, s)
  pub list_pods :
      (s : S)
      → env.api.list_pods (pod_labels "redis" spec.cluster_name) s ≡ (success (pods_at s), s)
  pub get_job :
      (s : S)
      → env.api.get_job (record { namespace = req.namespace; name = metadata.name }) s
        ≡ (elim (job_at s) [ none ↦ missing | some j ↦ success j ], s)
  pub redis_get :
      (s : S)
      → (r : FailoverReply) × (env.redis.failover_get
            (options_at metadata spec secret)
            metadata.name
            s
          ≡ (r, s))
        × (text_of r ≡ left_at s)
  -- The owner is written into the object's metadata only.
  pub set_owner :
      (b : RedisBackup) (j : Job)
      → env.api.set_controller_reference b (job j) ≡ success (job (owned j))
  pub owned_named : (j : Job) → IsNamed req j.metadata → IsNamed req (owned j).metadata
  -- Writes are granted, and store what they ask for.
  pub create_answers :
      (j : Job) (s : S)
      → IsNamed req j.metadata
      → job_at s ≡ none
      → (env.api.create (job j) s).0 ≡ none
  pub create_stores :
      (j : Job) (s : S)
      → IsNamed req j.metadata
      → job_at s ≡ none
      → is_none (job_at (env.api.create (job j) s).1) ≡ false
  pub create_status : (j : Job) (s : S) → status_at (env.api.create (job j) s).1 ≡ status_at s
  pub create_left : (j : Job) (s : S) → left_at (env.api.create (job j) s).1 ≡ left_at s
  pub update_answers :
      (st : RedisBackupStatus) (s : S)
      → (env.api.update_backup_status
          (record { metadata = metadata; spec = spec; status = st })
          s).0
        ≡ success (record { metadata = metadata; spec = spec; status = st })
  pub update_stores :
      (st : RedisBackupStatus) (s : S)
      → status_at
          (env.api.update_backup_status
            (record { metadata = metadata; spec = spec; status = st })
            s).1
        ≡ st
  pub update_job :
      (st : RedisBackupStatus) (s : S)
      → job_at
          (env.api.update_backup_status
            (record { metadata = metadata; spec = spec; status = st })
            s).1
        ≡ job_at s
  pub update_left :
      (st : RedisBackupStatus) (s : S)
      → left_at
          (env.api.update_backup_status
            (record { metadata = metadata; spec = spec; status = st })
            s).1
        ≡ left_at s
