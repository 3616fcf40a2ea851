-- ===== src/Tests/Cluster.antt =====
-- A small cluster to run the operator on: a store of resources that answers as an API server does,
-- and redis servers with fixed answers.
use mathlib.Core.Bool.{false≢true}
use redis_backup_operator.Base.{
  ◌≡◌, ◌≢◌, sym, ap, ◌∙◌, false, String, ◌==◌, Bool, true, none, some, List, [], ◌∷◌, ◌++◌, pos,
  if◌then◌else◌,
}
use redis_backup_operator.Base.Text.{Dict, get}
use redis_backup_operator.Types.Kubernetes.{
  ObjectMeta, Pod, Job, CronJob, Object, job, cron_job, cron_job_v1beta1,
}
use redis_backup_operator.Types.Backup.{RedisBackup}
use redis_backup_operator.Types.Clone.{RedisClone, CloneCondition}
use redis_backup_operator.Types.Operate.{Redisoperate}
use redis_backup_operator.Runtime.{World, Outcome, GoError, Reply, Environment}

abbrev pub not_found : GoError
not_found = record { is_not_found = true; message = "not found" }

abbrev pub unavailable : GoError
unavailable = record { is_not_found = false; message = "unavailable" }

abbrev pub success : {A : Type 0} → A → Reply A
success a = record { value = a; error = none }

abbrev pub metadata_of : String → Dict String → ObjectMeta
metadata_of name labels = record {
  name = name;
  namespace = "prod";
  labels = labels;
  creation_timestamp = some "2024-01-01";
  owners = [];
}

-- A pod with a claim
abbrev pub pod_of : String → String → String → Pod
pod_of role phase claim = record {
  metadata = metadata_of "rfr-cache-0" (("redisfailovers-role", role) ∷ []);
  spec = record {
    volumes =
        record {
          name = "redis-data";
          persistent_volume_claim = some (record { claim_name = claim });
        }
        ∷ [];
    containers = [];
    restart_policy = "Always";
    node_selector = none;
    tolerations = none;
  };
  phase = phase;
  pod_ip = "10.0.0.7";
}

abbrev pub backup_of : String → RedisBackup
backup_of schedule = record {
  metadata = metadata_of "nightly" [];
  spec = record {
    cluster_name = "cache";
    backup_secret_name = "s3";
    expire_days = "7";
    backup_url = "s3://backups";
    backup_schedule = schedule;
  };
  status = record {
    job_status = [];
    last_backup_info = record { backup_secret_name = ""; backup_url = ""; backup_schedule = "" };
    conditions = [];
  };
}

abbrev pub no_conditions : CloneCondition
no_conditions = record {
  source_cluster = "";
  dest_cluster = "";
  source_ip_port = "";
  cluster_type = "";
  start_time = "";
  off_set = "";
  clone_lag = "";
  clone_status = "";
  replicas = pos 0;
}

abbrev pub clone_of : String → RedisClone
clone_of start_time = record {
  metadata = metadata_of "copy" [];
  spec = record {
    source_cluster = "old";
    dest_cluster = "cache";
    source_ip = "10.1.0.1";
    source_port = "6379";
    source_passwd = "c2VjcmV0";
    cluster_type = "sentinel";
    replicas = pos 3;
  };
  status = record { conditions = record no_conditions { start_time = start_time } };
}

abbrev pub operate_of : Redisoperate
operate_of = record {
  metadata = metadata_of "switch" [];
  spec = record { cluster_name = "cache"; failover_flag = pos 1 };
}

-- The state of the cluster. `pods_answer` is false where a list of pods fails.
pub record Cluster : Type 0 where
  pub backup : RedisBackup
  pub clone : RedisClone
  pub operate : Redisoperate
  pub redis_pods : List Pod
  pub sentinel_pods : List Pod
  pub pods_answer : Bool
  pub jobs : List Job
  pub cron_jobs : List CronJob

abbrev pub first_job : List Job → Reply Job
first_job [] = record {
  value = record {
    metadata = metadata_of "" [];
    spec = record {
      active_deadline_seconds = none;
      backoff_limit = none;
      ttl_seconds_after_finished = none;
      template = (pod_of "" "" "").spec;
    };
  };
  error = some not_found;
}
first_job (j ∷ jobs) = success j

abbrev pub cron_job_of : String → String → CronJob
cron_job_of name claim = record {
  metadata = metadata_of name (("redis-sentinel-operator/cluster-name", "cache") ∷ []);
  spec = record {
    schedule = "0 0 * * *";
    concurrency_policy = "Forbid";
    failed_jobs_history_limit = none;
    successful_jobs_history_limit = none;
    job_template = record {
      active_deadline_seconds = none;
      backoff_limit = none;
      ttl_seconds_after_finished = none;
      template = (pod_of "" "" claim).spec;
    };
  };
}

abbrev first_cron_job : List CronJob → Reply CronJob
first_cron_job [] = record { value = cron_job_of "" ""; error = some not_found }
first_cron_job (c ∷ cs) = success c

abbrev created : Object → Cluster → Cluster
created (job j) s = record s { jobs = s.jobs ++ j ∷ [] }
created (cron_job c) s = record s { cron_jobs = s.cron_jobs ++ c ∷ [] }
created (cron_job_v1beta1 c) s = record s { cron_jobs = s.cron_jobs ++ c ∷ [] }

abbrev deleted : Object → Cluster → Cluster
deleted (job j) s = record s { jobs = [] }
deleted (cron_job c) s = record s { cron_jobs = [] }
deleted (cron_job_v1beta1 c) s = record s { cron_jobs = [] }

abbrev pub replication_text : String
replication_text = "# Replication\nmaster_link_status:up\nslave_repl_offset:42\n"

-- The environment of the examples
abbrev pub environment : Environment Cluster
environment = record {
  api = record {
    get_redis_backup = λ k s. (success s.backup, s);
    get_redis_clone = λ k s. (success s.clone, s);
    get_redisoperate = λ k s. (success s.operate, s);
    get_secret = λ k s. (success (record { content = ("password", "pw") ∷ [] }), s);
    get_job = λ k s. (first_job s.jobs, s);
    get_cron_job = λ k s. (first_cron_job s.cron_jobs, s);
    get_cron_job_v1beta1 = λ k s. (first_cron_job s.cron_jobs, s);
    list_pods = λ labels s. (
      if s.pods_answer
          then success (
              if get "app.kubernetes.io/component" labels == "sentinel"
              then s.sentinel_pods
              else s.redis_pods)
          else record { value = []; error = some unavailable },
      s,
    );
    list_cron_jobs = λ labels namespace s. (success s.cron_jobs, s);
    create = λ o s. (none, created o s);
    delete = λ o s. (none, deleted o s);
    update_backup_status = λ b s. (success b, record s { backup = b });
    update_clone_status = λ c s. (none, record s { clone = c });
    patch_redisoperate = λ modified original s. (none, record s { operate = modified });
    set_controller_reference = λ backup o. success o;
    server_preferred_resources = λ s. (
      Outcome.returned (record { group_version = "batch/v1"; kinds = "Job" ∷ "CronJob" ∷ [] } ∷ []),
      s,
    );
  };
  redis = record {
    failover_get = λ options key s. (record { val = ""; close_error = none }, s);
    info = λ options section s. (success replication_text, s);
    process = λ options args s.
        (record { process_error = none; result_error = none; result = "OK"; items = [] }, s);
    slave_of = λ options host port s. (none, s);
    config_set = λ options parameter value s. (none, s);
  };
  host = record {
    lookup_env = λ key. none;
    now = λ s. ("2024-01-02 00:00:00", s);
    unmarshal_conditions = λ text. [];
    decode_base64 = λ text. text;
  };
}

-- The cluster with a running master on `claim`
abbrev pub cluster_of : RedisBackup → String → List CronJob → Cluster
cluster_of backup claim cron_jobs = record {
  backup = backup;
  clone = clone_of "";
  operate = operate_of;
  redis_pods = pod_of "slave" "Running" "redis-data-1" ∷ pod_of "master" "Running" claim ∷ [];
  sentinel_pods = pod_of "sentinel" "Running" "" ∷ [];
  pods_answer = true;
  jobs = [];
  cron_jobs = cron_jobs;
}

abbrev pub world_of : Cluster → World Cluster
world_of cluster = record { cluster = cluster; log = [] }

-- Servers that keep answering what the cluster answers, and store nothing, over any state
abbrev pub constant : (S : Type 0) → Cluster → Environment S
constant S cluster = record {
  api = record {
    get_redis_backup = λ k s. (success cluster.backup, s);
    get_redis_clone = λ k s. (success cluster.clone, s);
    get_redisoperate = λ k s. (success cluster.operate, s);
    get_secret = λ k s. (success (record { content = ("password", "pw") ∷ [] }), s);
    get_job = λ k s. (first_job cluster.jobs, s);
    get_cron_job = λ k s. (first_cron_job cluster.cron_jobs, s);
    get_cron_job_v1beta1 = λ k s. (first_cron_job cluster.cron_jobs, s);
    list_pods = λ labels s. (success cluster.redis_pods, s);
    list_cron_jobs = λ labels namespace s. (success cluster.cron_jobs, s);
    create = λ o s. (none, s);
    delete = λ o s. (none, s);
    update_backup_status = λ b s. (success b, s);
    update_clone_status = λ c s. (none, s);
    patch_redisoperate = λ modified original s. (none, s);
    set_controller_reference = λ backup o. success o;
    server_preferred_resources = λ s. (
      Outcome.returned (record { group_version = "batch/v1"; kinds = "Job" ∷ "CronJob" ∷ [] } ∷ []),
      s,
    );
  };
  redis = record {
    failover_get = λ options key s. (record { val = ""; close_error = none }, s);
    info = λ options section s. (success replication_text, s);
    process = λ options args s.
        (record { process_error = none; result_error = none; result = "OK"; items = [] }, s);
    slave_of = λ options host port s. (none, s);
    config_set = λ options parameter value s. (none, s);
  };
  host = record {
    lookup_env = λ key. none;
    now = λ s. ("2024-01-02 00:00:00", s);
    unmarshal_conditions = λ text. [];
    decode_base64 = λ text. text;
  };
}

pub text-non_empty : (t : String) → (t == "") ≡ false → t ≢ ""
text-non_empty t full e = false≢true (sym full ∙ ap (λ s. s == "") e)
