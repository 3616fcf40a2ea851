-- ===== src/Types/Clone.antt =====
-- api/v1alpha1/redisclone_types.go
use redis_backup_operator.Base.{String, ℤ}
use redis_backup_operator.Types.Kubernetes.{ObjectMeta}

pub record RedisCloneSpec : Type 0 where
  pub source_cluster : String
  pub dest_cluster : String
  pub source_ip : String
  pub source_port : String
  pub source_passwd : String
  pub cluster_type : String
  pub replicas : ℤ

pub record CloneCondition : Type 0 where
  pub source_cluster : String
  pub dest_cluster : String
  pub source_ip_port : String
  pub cluster_type : String
  pub start_time : String
  pub off_set : String
  pub clone_lag : String
  pub clone_status : String
  pub replicas : ℤ

pub record RedisCloneStatus : Type 0 where
  pub conditions : CloneCondition

pub record RedisClone : Type 0 where
  pub metadata : ObjectMeta
  pub spec : RedisCloneSpec
  pub status : RedisCloneStatus
