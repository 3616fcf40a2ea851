-- ===== src/Types/Kubernetes.antt =====
-- The Kubernetes data types of k8s.io/api and k8s.io/apimachinery, as far as the program reads or
-- sets their fields. A pointer, a map or a slice that the program compares with nil is an `Option`.
use redis_backup_operator.Base.{String, Bool, Option, List, ℤ}
use redis_backup_operator.Base.Text.{Dict}

pub record NamespacedName : Type 0 where
  pub namespace : String
  pub name : String

-- `creation_timestamp` is `none` where `IsZero` holds. Only `controllerutil` writes the owners.
pub record ObjectMeta : Type 0 where
  pub name : String
  pub namespace : String
  pub labels : Dict String
  pub creation_timestamp : Option String
  pub owners : List String

pub record SecretKeySelector : Type 0 where
  pub name : String
  pub key : String
  pub optional : Option Bool

pub record EnvVar : Type 0 where
  pub name : String
  pub value : String
  pub secret_key_ref : Option SecretKeySelector

pub record VolumeMount : Type 0 where
  pub name : String
  pub mount_path : String

pub record Container : Type 0 where
  pub name : String
  pub image : String
  pub command : List String
  pub args : List String
  pub env : List EnvVar
  pub volume_mounts : List VolumeMount

pub record PersistentVolumeClaimVolumeSource : Type 0 where
  pub claim_name : String

pub record Volume : Type 0 where
  pub name : String
  pub persistent_volume_claim : Option PersistentVolumeClaimVolumeSource

pub record Toleration : Type 0 where
  pub key : String
  pub operator : String
  pub value : String
  pub effect : String
  pub toleration_seconds : Option ℤ

pub record PodSpec : Type 0 where
  pub volumes : List Volume
  pub containers : List Container
  pub restart_policy : String
  pub node_selector : Option (Dict String)
  pub tolerations : Option (List Toleration)

pub record Pod : Type 0 where
  pub metadata : ObjectMeta
  pub spec : PodSpec
  pub phase : String
  pub pod_ip : String

pub record Secret : Type 0 where
  pub content : Dict String

pub record JobSpec : Type 0 where
  pub active_deadline_seconds : Option ℤ
  pub backoff_limit : Option ℤ
  pub ttl_seconds_after_finished : Option ℤ
  pub template : PodSpec

pub record Job : Type 0 where
  pub metadata : ObjectMeta
  pub spec : JobSpec

pub record CronJobSpec : Type 0 where
  pub schedule : String
  pub concurrency_policy : String
  pub failed_jobs_history_limit : Option ℤ
  pub successful_jobs_history_limit : Option ℤ
  pub job_template : JobSpec

-- The fields are those of `batch/v1` and of `batch/v1beta1`.
pub record CronJob : Type 0 where
  pub metadata : ObjectMeta
  pub spec : CronJobSpec

-- The objects that go into a `client.Object`.
pub data Object : Type 0 where
  job : Job → Object
  cron_job : CronJob → Object
  cron_job_v1beta1 : CronJob → Object

-- What discovery tells of one group version: the kinds of its resources.
pub record ApiResourceList : Type 0 where
  pub group_version : String
  pub kinds : List String
