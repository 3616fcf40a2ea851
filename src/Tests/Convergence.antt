-- ===== src/Tests/Convergence.antt =====
-- Passes and periodic checks on a cluster that keeps one status, one CronJob and the claim of the
-- master, and answers as an API server does.
use redis_backup_operator.Base.{
  String, ◌==◌, ◌≡◌, refl, true, false, Option, none, some, List, [], ◌∷◌,
}
use redis_backup_operator.Types.Kubernetes.{
  NamespacedName, Pod, CronJob, Object, job, cron_job, cron_job_v1beta1,
}
use redis_backup_operator.Types.Backup.{RedisBackup, RedisBackupStatus, BackupCondition}
use redis_backup_operator.Runtime.{World, Outcome, Reply, Environment}
use redis_backup_operator.Base.Text.{lookup}
use redis_backup_operator.Backup.{found, search_master, first_claim, scan_versions}
use redis_backup_operator.Backup.Convergence.Store.{Store, cron_job_list, selected}
use redis_backup_operator.Backup.Convergence.Endings.{IsPhase}
use redis_backup_operator.Backup.Convergence.Run.{
  Action, reconciles, checks, others, IsState, run, Returns, run-IsState, run-settles,
}
use redis_backup_operator.Tests.Cluster.{
  text-non_empty, not_found, success, pod_of, backup_of, clone_of, operate_of, cron_job_of,
  replication_text,
}

record Kept : Type 0 where
  status : RedisBackupStatus
  stored : Option CronJob
  master_claim : String
  nonempty : (master_claim == "") ≡ false

abbrev schedule : String
schedule = "0 0 * * *"

abbrev backup_with : RedisBackupStatus → RedisBackup
backup_with st = record (backup_of schedule) { status = st }

abbrev created : Object → Option CronJob → Option CronJob
created (job j) o = o
created (cron_job c) o = some c
created (cron_job_v1beta1 c) o = some c

abbrev missing : Reply CronJob
missing = record { value = cron_job_of "" ""; error = some not_found }

abbrev no_record : BackupCondition
no_record = record {
  file_path = "";
  file_size = "";
  job_name = "nightly";
  pod_name = "";
  object_name = "";
  backup_start_time = "";
  backup_end_time = "";
  status = "";
  message = "";
}

abbrev pods_on : String → List Pod
pods_on claim = pod_of "slave" "Running" "redis-data-1" ∷ pod_of "master" "Running" claim ∷ []

abbrev environment : Environment Kept
environment = record {
  api = record {
    get_redis_backup = λ k s. (success (backup_with s.status), s);
    get_redis_clone = λ k s. (success (clone_of ""), s);
    get_redisoperate = λ k s. (success operate_of, s);
    get_secret = λ k s. (success (record { content = ("password", "pw") ∷ [] }), s);
    get_job = λ k s. (
      record {
        value = record {
          metadata = (backup_of schedule).metadata;
          spec = (cron_job_of "" "").spec.job_template;
        };
        error = some not_found;
      },
      s,
    );
    get_cron_job = λ k s. (elim (s.stored) [ none ↦ missing | some c ↦ success c ], s);
    get_cron_job_v1beta1 = λ k s. (missing, s);
    list_pods = λ labels s. (success (pods_on s.master_claim), s);
    list_cron_jobs = λ labels namespace s. (success (selected "cache" (cron_job_list s.stored)), s);
    create = λ o s. (none, record s { stored = created o s.stored });
    delete = λ o s. (none, record s { stored = none });
    update_backup_status = λ b s. (success b, record s { status = b.status });
    update_clone_status = λ c s. (none, s);
    patch_redisoperate = λ modified original s. (none, s);
    set_controller_reference = λ backup o. success o;
    server_preferred_resources = λ s. (
      Outcome.returned (record { group_version = "batch/v1"; kinds = "Job" ∷ "CronJob" ∷ [] } ∷ []),
      s,
    );
  };
  redis = record {
    failover_get = λ options key s. (record { val = "[{}]"; close_error = none }, s);
    info = λ options section s. (success replication_text, s);
    process = λ options args s.
        (record { process_error = none; result_error = none; result = "OK"; items = [] }, s);
    slave_of = λ options host port s. (none, s);
    config_set = λ options parameter value s. (none, s);
  };
  host = record {
    lookup_env = λ key. none;
    now = λ s. ("2024-01-02 00:00:00", s);
    unmarshal_conditions = λ text. no_record ∷ [];
    decode_base64 = λ text. text;
  };
}

abbrev nightly : NamespacedName
nightly = record { namespace = "prod"; name = "nightly" }

finds_master : (claim : String) → search_master (pods_on claim) ≡ found claim
unfolding search_master first_claim lookup
finds_master claim = refl

stable :
    (scan_versions (record { group_version = "batch/v1"; kinds = "Job" ∷ "CronJob" ∷ [] } ∷ []) ""
      == "batch/v1beta1")
    ≡ false
unfolding scan_versions
stable = refl

abbrev store : Store environment nightly
store = record {
  metadata = (backup_of schedule).metadata;
  spec = (backup_of schedule).spec;
  status_at = λ s. s.status;
  cron_job_at = λ s. s.stored;
  secret = record { content = ("password", "pw") ∷ [] };
  pods_at = λ s. pods_on s.master_claim;
  claim_at = λ s. s.master_claim;
  versions = record { group_version = "batch/v1"; kinds = "Job" ∷ "CronJob" ∷ [] } ∷ [];
  missing = missing;
  missing_error = not_found;
  owned = λ c. c;
  named = (refl, refl);
  scheduled = text-non_empty schedule refl;
  master = λ s. finds_master s.master_claim;
  claimed = λ s. text-non_empty s.master_claim s.nonempty;
  stable = stable;
  missing_fails = refl;
  missing_not_found = refl;
  get_backup = λ s. refl;
  get_secret = λ s. refl;
  list_pods = λ s. refl;
  discover = λ s. refl;
  get_cron_job = λ s. refl;
  list_cron_jobs = λ s. refl;
  redis_get = λ options k s. refl;
  records = λ options k s full. (no_record, refl);
  set_owner = λ b c. refl;
  owned_spec = λ c. refl;
  owned_labels = λ c. refl;
  owned_named = λ c h. h;
  create_answers = λ c s named gone. refl;
  create_stores = λ c s named gone. refl;
  create_status = λ c s. refl;
  create_claim = λ c s. refl;
  delete_answers = λ c s named here. refl;
  delete_stores = λ c s named. refl;
  delete_status = λ c s. refl;
  delete_claim = λ c s. refl;
  update_answers = λ st s. refl;
  update_stores = λ st s. refl;
  update_cron_job = λ st s. refl;
  update_claim = λ st s. refl;
}

-- A CronJob on a claim that the master no longer has, and no settings recorded
abbrev stale : World Kept
stale = record {
  cluster = record {
    status = (backup_of schedule).status;
    stored = some (cron_job_of "nightly" "redis-data-1");
    master_claim = "redis-data-0";
    nonempty = refl;
  };
  log = [];
}

stale-IsPhase : IsPhase store stale.cluster (some "redis-data-1", false)
unfolding first_claim lookup
stale-IsPhase = (
  record {
    c = cron_job_of "nightly" "redis-data-1";
    stored = refl;
    names = (refl, refl);
    labelled = refl;
    claims = refl;
  },
  λ all. text-non_empty "s3" refl all.0,
)

-- The master moves to the pod on the given claim.
abbrev moves_to : (claim : String) → (claim == "") ≡ false → Action store
moves_to claim full = others (some claim) (record {
  act = λ s. record s { master_claim = claim; nonempty = full };
  claim = λ s. refl;
  cron_job = λ s. refl;
  status = λ s. refl;
})

run-IsState_example :
    Returns store (reconciles ∷ moves_to "redis-data-1" refl ∷ checks ∷ reconciles ∷ []) stale
    × IsState store
        (run store
          (reconciles ∷ moves_to "redis-data-1" refl ∷ checks ∷ reconciles ∷ [])
          stale).cluster
        ("redis-data-1", (some "redis-data-1", true))
run-IsState_example =
    run-IsState store (reconciles ∷ moves_to "redis-data-1" refl ∷ checks ∷ reconciles ∷ []) stale
      ("redis-data-0", (some "redis-data-1", false)) (refl, stale-IsPhase)

run-settles_example :
    Returns store (moves_to "redis-data-2" refl ∷ reconciles ∷ checks ∷ reconciles ∷ []) stale
    × IsState store
        (run store
          (moves_to "redis-data-2" refl ∷ reconciles ∷ checks ∷ reconciles ∷ [])
          stale).cluster
        ("redis-data-2", (some "redis-data-2", true))
run-settles_example =
    run-settles store (moves_to "redis-data-2" refl ∷ []) [] [] [] stale
      (some "redis-data-1", false) stale-IsPhase tt tt tt
