-- ===== src/Tests/OneShot.antt =====
-- Passes over a backup with no schedule, on a cluster that keeps one status, one Job and the record
-- that the Job leaves in redis.
use mathlib.Core.Path.{subst}
use redis_backup_operator.Base.{
  String, ◌≡◌, refl, false, Option, none, some, List, [], ◌∷◌, is_none,
}
use redis_backup_operator.Base.Text.{lookup}
use redis_backup_operator.Types.Kubernetes.{
  NamespacedName, Pod, Job, Object, job, cron_job, cron_job_v1beta1,
}
use redis_backup_operator.Types.Backup.{RedisBackupStatus, BackupCondition}
use redis_backup_operator.Runtime.{World, Environment, Reply}
use redis_backup_operator.Backup.{found, search_master, first_claim}
use redis_backup_operator.Backup.Reconcile.Counts.{object_requests}
use redis_backup_operator.Backup.OneShot.Store.{Store}
use redis_backup_operator.Backup.OneShot.Runs.{
  Action, reconciles, others, Returns, shoot, shoot-once,
}
use redis_backup_operator.Tests.Cluster.{
  text-non_empty, Cluster, constant, cluster_of, backup_of, success, pod_of, first_job, not_found,
}

record Kept : Type 0 where
  status : RedisBackupStatus
  stored : Option Job
  left : String

abbrev pods : List Pod
pods = pod_of "slave" "Running" "redis-data-1" ∷ pod_of "master" "Running" "redis-data-0" ∷ []

abbrev stamp : Job → Job
stamp j = record j {
  metadata = record (j.metadata) { creation_timestamp = some "2024-01-02T00:00:00Z" };
}

abbrev job_at : Option Job → Option Job
job_at none = none
job_at (some j) = some (stamp j)

abbrev created : Object → Option Job → Option Job
created (job j) o = some j
created (cron_job c) o = o
created (cron_job_v1beta1 c) o = o

abbrev missing : Reply Job
missing = first_job []

abbrev small : Cluster
small = cluster_of (backup_of "") "redis-data-0" []

abbrev written : BackupCondition
written = record {
  file_path = "/backup/dump.rdb";
  file_size = "42";
  job_name = "nightly";
  pod_name = "";
  object_name = "";
  backup_start_time = "";
  backup_end_time = "";
  status = "success";
  message = "";
}

abbrev environment : Environment Kept
environment = record (constant Kept small) {
  api = record ((constant Kept small).api) {
    get_redis_backup = λ k s. (success (record (backup_of "") { status = s.status }), s);
    list_pods = λ labels s. (success pods, s);
    get_job = λ k s. (elim (job_at s.stored) [ none ↦ missing | some j ↦ success j ], s);
    create = λ o s. (none, record s { stored = created o s.stored });
    update_backup_status = λ b s. (success b, record s { status = b.status });
  };
  redis = record ((constant Kept small).redis) {
    failover_get = λ options key s. (record { val = s.left; close_error = none }, s);
  };
  host = record ((constant Kept small).host) { unmarshal_conditions = λ text. written ∷ [] };
}

abbrev nightly : NamespacedName
nightly = record { namespace = "prod"; name = "nightly" }

finds_master : search_master pods ≡ found "redis-data-0"
unfolding search_master first_claim lookup
finds_master = refl

stamped :
    (o : Option Job) (j : Job) → job_at o ≡ some j → is_none j.metadata.creation_timestamp ≡ false
stamped none j e = cc
stamped (some k) j e =
    subst (λ (x : Job). is_none x.metadata.creation_timestamp ≡ false) (same e) refl
  where
    same : {A : Type 0} {a b : A} → some a ≡ some b → a ≡ b
    same e = cc

abbrev store : Store environment nightly
store = record {
  metadata = (backup_of "").metadata;
  spec = (backup_of "").spec;
  secret = record { content = ("password", "pw") ∷ [] };
  status_at = λ s. s.status;
  job_at = λ s. job_at s.stored;
  left_at = λ s. s.left;
  pods_at = λ s. pods;
  claim_at = λ s. "redis-data-0";
  missing = missing;
  missing_error = not_found;
  owned = λ j. j;
  named = (refl, refl);
  unscheduled = refl;
  master = λ s. finds_master;
  claimed = λ s. text-non_empty "redis-data-0" refl;
  missing_fails = refl;
  missing_not_found = refl;
  stamped = λ s j e. stamped s.stored j e;
  get_backup = λ s. refl;
  get_secret = λ s. refl;
  list_pods = λ s. refl;
  get_job = λ s. refl;
  redis_get = λ s. (record { val = s.left; close_error = none }, refl, refl);
  set_owner = λ b j. refl;
  owned_named = λ j h. h;
  create_answers = λ j s named gone. refl;
  create_stores = λ j s named gone. refl;
  create_status = λ j s. refl;
  create_left = λ j s. refl;
  update_answers = λ st s. refl;
  update_stores = λ st s. refl;
  update_job = λ st s. refl;
  update_left = λ st s. refl;
}

abbrev fresh : World Kept
fresh = record {
  cluster = record { status = (backup_of "").status; stored = none; left = "" };
  log = [];
}

-- The Job ends and leaves its record.
abbrev ends : Action store
ends = others "[{}]" (record {
  act = λ s. record s { left = "[{}]" };
  job = λ s. refl;
  status = λ s. refl;
  left = λ s. refl;
})

abbrev actions : List (Action store)
actions = reconciles ∷ ends ∷ reconciles ∷ []

shoot-once_example :
    Returns store actions fresh
    × (is_none (store.job_at (shoot store actions fresh).cluster) ≡ false)
    × (object_requests (shoot store actions fresh).log ≡ 1)
    × ((store.status_at (shoot store actions fresh).cluster).conditions ≡ written ∷ [])
shoot-once_example = shoot-once store (reconciles ∷ ends ∷ []) fresh refl refl
