-- ===== src/Operate.antt =====
-- controllers/redisoperate_controller.go: the reconciler of Redisoperate, which fails a sentinel
-- cluster over on demand.
pub mod Failover
use redis_backup_operator.Base.{
  String, Bool, true, false, Option, none, some, List, [], ◌∷◌, ℤ, pos, int_eq, get_elem?,
  if◌then◌else◌,
}
use redis_backup_operator.Types.Kubernetes.{NamespacedName, Pod}
use redis_backup_operator.Types.Operate.{Redisoperate}
use redis_backup_operator.Runtime.{
  M, pure, call, send, or_panic, ◌>>=◌, Result, done, failed, patches, Environment,
}
use redis_backup_operator.Redis.{fail_over_operate}
use redis_backup_operator.Backup.{pod_labels}

-- `operateInstance.Spec.FailoverFlag = 0`
abbrev pub cleared : Redisoperate → Redisoperate
cleared operate = record operate { spec = record (operate.spec) { failover_flag = pos 0 } }

module _ {S : Type 0} (env : Environment S) where
  -- The failover, of which the result is only logged, and the patch of the flag
  unfoldable pub fail_over : Redisoperate → List Pod → M S Result
  unfolding fail_over_operate
  fail_over operate sentinels = do
    first ← or_panic (get_elem? sentinels 0)
    _ ← fail_over_operate env first.pod_ip "mymaster"
    refused ←
        send (patches (cleared operate) operate)
          (env.api.patch_redisoperate (cleared operate) operate)
    elim refused [ some err ↦ pure (failed err) | none ↦ pure done ]

  -- What follows the read of the resource. An error of the list of pods is only logged.
  unfoldable pub operate_instance : Redisoperate → M S Result
  unfolding fail_over
  operate_instance operate = do
    sentinels ← call (env.api.list_pods (pod_labels "sentinel" operate.spec.cluster_name))
    if int_eq operate.spec.failover_flag (pos 1)
        then fail_over operate sentinels.value
        else pure done

  -- `Reconcile`. An error of `Get` other than "not found" is not returned.
  unfoldable pub reconcile : NamespacedName → M S Result
  unfolding operate_instance
  reconcile req = do
    got ← call (env.api.get_redisoperate req)
    elim (got.error) [
      | none ↦ operate_instance got.value
      | some err ↦ if err.is_not_found then pure done else operate_instance got.value
    ]
