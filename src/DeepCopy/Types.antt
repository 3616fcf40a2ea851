-- ===== src/DeepCopy/Types.antt =====
-- The served resources of api/v1alpha1 as structs in memory, with their references. A struct of
-- k8s.io/api or k8s.io/apimachinery whose own DeepCopyInto is called is an `X kind` that nothing is
-- known of. The structs with no references are those of Types.
use redis_backup_operator.Base.{ℕ, String}
use redis_backup_operator.Types.Backup.{RedisBackupSpec, BackupCondition, LastBackupInfo, JobStatus}
use redis_backup_operator.Types.Clone.{RedisCloneSpec, RedisCloneStatus}
use redis_backup_operator.Types.Operate.{RedisoperateSpec}
use redis_backup_operator.DeepCopy.Memory.{Ref}

-- The structs with their own DeepCopyInto.
pub data Kind : Type 0 where
  object_meta list_meta : Kind
  claim_spec claim_status empty_dir_volume_source : Kind
  affinity_rules pod_security_context toleration env_var resource_requirements : Kind

pub record TypeMeta : Type 0 where
  pub kind : String
  pub api_version : String

-- A `runtime.Object` that is not nil: which struct the pointer in it is to, and its address
pub data RuntimeObject : Type 0 where
  redis_backup_object redis_backup_list_object : ℕ → RuntimeObject
  redis_clone_object redis_clone_list_object : ℕ → RuntimeObject
  redisoperate_object redisoperate_list_object : ℕ → RuntimeObject
  redis_failover_object redis_failover_list_object : ℕ → RuntimeObject

pub record RedisBackupStatusStruct (X : Kind → Type 0) : Type 0 where
  pub job_status : Ref JobStatus
  pub last_backup_info : LastBackupInfo
  pub conditions : Ref BackupCondition

pub record RedisBackupStruct (X : Kind → Type 0) : Type 0 where
  pub type_meta : TypeMeta
  pub metadata : X object_meta
  pub spec : RedisBackupSpec
  pub status : RedisBackupStatusStruct X

pub record RedisBackupList (X : Kind → Type 0) : Type 0 where
  pub type_meta : TypeMeta
  pub metadata : X list_meta
  pub items : Ref (RedisBackupStruct X)

pub record RedisCloneStruct (X : Kind → Type 0) : Type 0 where
  pub type_meta : TypeMeta
  pub metadata : X object_meta
  pub spec : RedisCloneSpec
  pub status : RedisCloneStatus

pub record RedisCloneList (X : Kind → Type 0) : Type 0 where
  pub type_meta : TypeMeta
  pub metadata : X list_meta
  pub items : Ref (RedisCloneStruct X)

-- `RedisoperateStatus` has no fields.
pub record RedisoperateStruct (X : Kind → Type 0) : Type 0 where
  pub type_meta : TypeMeta
  pub metadata : X object_meta
  pub spec : RedisoperateSpec

pub record RedisoperateList (X : Kind → Type 0) : Type 0 where
  pub type_meta : TypeMeta
  pub metadata : X list_meta
  pub items : Ref (RedisoperateStruct X)
