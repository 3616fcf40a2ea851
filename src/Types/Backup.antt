-- ===== src/Types/Backup.antt =====
-- api/v1alpha1/redisbackup_types.go
use redis_backup_operator.Base.{String, Bool, List}
use redis_backup_operator.Types.Kubernetes.{ObjectMeta}

pub record RedisBackupSpec : Type 0 where
  pub cluster_name : String
  pub backup_secret_name : String
  pub expire_days : String
  pub backup_url : String
  pub backup_schedule : String

pub record BackupCondition : Type 0 where
  pub file_path : String
  pub file_size : String
  pub job_name : String
  pub pod_name : String
  pub object_name : String
  pub backup_start_time : String
  pub backup_end_time : String
  pub status : String
  pub message : String

pub record LastBackupInfo : Type 0 where
  pub backup_secret_name : String
  pub backup_url : String
  pub backup_schedule : String

pub record JobStatus : Type 0 where
  pub completed : Bool

pub record RedisBackupStatus : Type 0 where
  pub job_status : List JobStatus
  pub last_backup_info : LastBackupInfo
  pub conditions : List BackupCondition

pub record RedisBackup : Type 0 where
  pub metadata : ObjectMeta
  pub spec : RedisBackupSpec
  pub status : RedisBackupStatus
