-- ===== src/Runtime/Services.antt =====
-- The interfaces of the third-party code: sigs.k8s.io/controller-runtime's client and discovery,
-- github.com/go-redis/redis, and the process's surroundings.
use redis_backup_operator.Base.{String, Bool, Option, List, ℤ}
use redis_backup_operator.Base.Text.{Dict}
use redis_backup_operator.Types.Kubernetes.{
  NamespacedName, Pod, Secret, Job, CronJob, Object, ApiResourceList,
}
use redis_backup_operator.Types.Backup.{RedisBackup, BackupCondition}
use redis_backup_operator.Types.Clone.{RedisClone}
use redis_backup_operator.Types.Operate.{Redisoperate}

-- How a call ends: with a value, by a panic, or by the end of the process (`log.Fatalf`).
pub data Outcome (A : Type 0) : Type 0 where
  returned : A → Outcome A
  panicked : Outcome A
  exited : Outcome A

-- What the program observes of an error: `errors.IsNotFound(err)` and `err.Error()`.
pub record GoError : Type 0 where
  pub is_not_found : Bool
  pub message : String

-- The struct that a call filled in, whatever stands in it after a failure, and the error.
pub record Reply (A : Type 0) : Type 0 where
  pub value : A
  pub error : Option GoError

-- `redis.Options` and `redis.FailoverOptions`
pub record Options : Type 0 where
  pub addr : String
  pub password : String
  pub db : ℤ

pub record FailoverOptions : Type 0 where
  pub master_name : String
  pub sentinel_addrs : List String
  pub db : ℤ
  pub password : String

-- `rdb.Get(key).Val()` and the error of `rdb.Close()`
pub record FailoverReply : Type 0 where
  pub val : String
  pub close_error : Option GoError

-- An element of a reply, which a type assertion `.(string)` tells apart.
pub data RedisValue : Type 0 where
  text : String → RedisValue
  other : RedisValue

-- `rClient.Process(cmd)` and the result and error of `cmd.Result()`: a text or a slice.
pub record CmdReply : Type 0 where
  pub process_error : Option GoError
  pub result_error : Option GoError
  pub result : String
  pub items : List RedisValue

-- The requests that change something.
pub data Event : Type 0 where
  creates deletes : Object → Event
  updates_backup : RedisBackup → Event
  updates_clone : RedisClone → Event
  patches : Redisoperate → Redisoperate → Event
  commands : Options → List String → Event

pub record ApiClient (S : Type 0) : Type 0 where
  pub get_redis_backup : NamespacedName → S → Reply RedisBackup × S
  pub get_redis_clone : NamespacedName → S → Reply RedisClone × S
  pub get_redisoperate : NamespacedName → S → Reply Redisoperate × S
  pub get_secret : NamespacedName → S → Reply Secret × S
  pub get_job : NamespacedName → S → Reply Job × S
  pub get_cron_job : NamespacedName → S → Reply CronJob × S
  pub get_cron_job_v1beta1 : NamespacedName → S → Reply CronJob × S
  -- `MatchingLabels`, in every namespace
  pub list_pods : Dict String → S → Reply (List Pod) × S
  -- a label selector and a namespace
  pub list_cron_jobs : Dict String → String → S → Reply (List CronJob) × S
  pub create : Object → S → Option GoError × S
  -- with background propagation
  pub delete : Object → S → Option GoError × S
  -- `Status().Update`, which writes the server's answer back into the struct
  pub update_backup_status : RedisBackup → S → Reply RedisBackup × S
  pub update_clone_status : RedisClone → S → Option GoError × S
  -- `Patch(modified, MergeFrom(original))`
  pub patch_redisoperate : Redisoperate → Redisoperate → S → Option GoError × S
  -- `controllerutil.SetControllerReference` under the manager's scheme
  pub set_controller_reference : RedisBackup → Object → Reply Object
  -- `GetConfigOrDie`, the discovery client and `ServerPreferredResources`: the lists that came
  -- back (errors are only logged), or the end that the process came to in these calls
  pub server_preferred_resources : S → Outcome (List ApiResourceList) × S

pub record RedisApi (S : Type 0) : Type 0 where
  pub failover_get : FailoverOptions → String → S → FailoverReply × S
  pub info : Options → String → S → Reply String × S
  pub process : Options → List String → S → CmdReply × S
  pub slave_of : Options → String → String → S → Option GoError × S
  pub config_set : Options → String → String → S → Option GoError × S

pub record Host (S : Type 0) : Type 0 where
  -- `os.LookupEnv`
  pub lookup_env : String → Option String
  -- `time.Now()` in Asia/Shanghai, formatted
  pub now : S → String × S
  -- `json.Unmarshal` into an empty `[]BackupCondition`: what stands in it afterwards (the error
  -- is only logged)
  pub unmarshal_conditions : String → List BackupCondition
  -- `base64.StdEncoding.DecodeString`: the bytes decoded before an error, which is dropped
  pub decode_base64 : String → String

pub record Environment (S : Type 0) : Type 0 where
  pub api : ApiClient S
  pub redis : RedisApi S
  pub host : Host S
