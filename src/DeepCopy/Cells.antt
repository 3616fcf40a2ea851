-- ===== src/DeepCopy/Cells.antt =====
-- What a block of memory holds: the elements of one type. `F` is the memory of third-party structs.
use redis_backup_operator.Base.{String, List}
use redis_backup_operator.Types.Backup.{RedisBackupSpec, BackupCondition, LastBackupInfo, JobStatus}
use redis_backup_operator.Types.Clone.{RedisCloneSpec, RedisCloneStatus, CloneCondition}
use redis_backup_operator.Types.Operate.{RedisoperateSpec, RedisoperateStatus}
use redis_backup_operator.DeepCopy.Types.{
  Kind, empty_dir_volume_source, affinity_rules, pod_security_context, toleration, env_var,
  resource_requirements, RedisBackupList, RedisBackupStatusStruct, RedisBackupStruct,
  RedisCloneList, RedisCloneStruct, RedisoperateList, RedisoperateStruct,
}
use redis_backup_operator.DeepCopy.FailoverTypes.{
  RedisCommandRename, AuthSettings, BootstrapSettings, LocalObjectReference, EmbeddedObjectMetadata,
  EmbeddedPersistentVolumeClaim, RedisExporter, RedisFailover, RedisFailoverList, RedisFailoverSpec,
  RedisSettings, RedisStorage, SentinelExporter, SentinelSettings,
}

pub data Cell (X : Kind → Type 0) (F : Type 0) : Type 0 where
  foreign : F → Cell X F
  strings : List (String) → Cell X F
  entries : List (String × String) → Cell X F
  job_statuses : List (JobStatus) → Cell X F
  backup_conditions : List (BackupCondition) → Cell X F
  last_backup_infos : List (LastBackupInfo) → Cell X F
  redis_backup_specs : List (RedisBackupSpec) → Cell X F
  clone_conditions : List (CloneCondition) → Cell X F
  redis_clone_specs : List (RedisCloneSpec) → Cell X F
  redis_clone_status_blocks : List (RedisCloneStatus) → Cell X F
  redisoperate_specs : List (RedisoperateSpec) → Cell X F
  redisoperate_statuses : List (RedisoperateStatus) → Cell X F
  redis_command_renames : List (RedisCommandRename) → Cell X F
  auth_settings_blocks : List (AuthSettings) → Cell X F
  bootstrap_settings_blocks : List (BootstrapSettings) → Cell X F
  local_object_references : List (LocalObjectReference) → Cell X F
  env_vars : List (X env_var) → Cell X F
  resource_blocks : List (X resource_requirements) → Cell X F
  affinity_blocks : List (X affinity_rules) → Cell X F
  security_contexts : List (X pod_security_context) → Cell X F
  toleration_blocks : List (X toleration) → Cell X F
  empty_dirs : List (X empty_dir_volume_source) → Cell X F
  redis_backup_status_blocks : List (RedisBackupStatusStruct X) → Cell X F
  redis_backups : List (RedisBackupStruct X) → Cell X F
  redis_backup_lists : List (RedisBackupList X) → Cell X F
  redis_clones : List (RedisCloneStruct X) → Cell X F
  redis_clone_lists : List (RedisCloneList X) → Cell X F
  redisoperates : List (RedisoperateStruct X) → Cell X F
  redisoperate_lists : List (RedisoperateList X) → Cell X F
  embedded_object_metadatas : List (EmbeddedObjectMetadata X) → Cell X F
  embedded_persistent_volume_claims : List (EmbeddedPersistentVolumeClaim X) → Cell X F
  redis_exporters : List (RedisExporter X) → Cell X F
  sentinel_exporters : List (SentinelExporter X) → Cell X F
  redis_storages : List (RedisStorage X) → Cell X F
  redis_settings_blocks : List (RedisSettings X) → Cell X F
  sentinel_settings_blocks : List (SentinelSettings X) → Cell X F
  redis_failover_specs : List (RedisFailoverSpec X) → Cell X F
  redis_failovers : List (RedisFailover X) → Cell X F
  redis_failover_lists : List (RedisFailoverList X) → Cell X F
