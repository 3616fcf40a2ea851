-- ===== src/Types/Operate.antt =====
-- api/v1alpha1/redisoperate_types.go
use redis_backup_operator.Base.{String, ℤ}
use redis_backup_operator.Types.Kubernetes.{ObjectMeta}

pub record RedisoperateSpec : Type 0 where
  pub cluster_name : String
  pub failover_flag : ℤ

-- A struct with no fields
pub data RedisoperateStatus : Type 0 where
  no_status : RedisoperateStatus

-- The field of type `RedisoperateStatus`, which says nothing, is left out.
pub record Redisoperate : Type 0 where
  pub metadata : ObjectMeta
  pub spec : RedisoperateSpec
