-- ===== src/Tests/Operate.antt =====
-- The failover on demand on the small cluster.
use redis_backup_operator.Base.{◌≡◌, refl, ◌≢◌, false, [], ◌∷◌, pos}
use redis_backup_operator.Base.Text.{lookup}
use redis_backup_operator.Types.Kubernetes.{NamespacedName}
use redis_backup_operator.Runtime.{World, panicked, patches}
use redis_backup_operator.Operate.{cleared, reconcile}
use redis_backup_operator.Operate.Failover.{fails_over, reconcile-failover, reconcile-no_sentinel}
use redis_backup_operator.Tests.Cluster.{
  Cluster, environment, cluster_of, world_of, backup_of, operate_of, pod_of,
}

abbrev switch : NamespacedName
switch = record { namespace = "prod"; name = "switch" }

abbrev healthy : World Cluster
healthy = world_of (cluster_of (backup_of "") "redis-data-0" [])

abbrev unlisted : World Cluster
unlisted = world_of (record (healthy.cluster) { pods_answer = false })

abbrev switched : World Cluster
switched = record {
  cluster = record (healthy.cluster) { operate = cleared operate_of };
  log = patches (cleared operate_of) operate_of ∷ fails_over (pod_of "sentinel" "Running" "") ∷ [];
}

reconcile-failover_example :
    ((reconcile environment switch healthy).1.log
      ≡ patches
          (record operate_of { spec = record (operate_of.spec) { failover_flag = pos 0 } })
          operate_of
        ∷ fails_over (pod_of "sentinel" "Running" "")
        ∷ [])
    × ((reconcile environment switch healthy).0 ≢ panicked)
unfolding lookup
reconcile-failover_example =
    reconcile-failover environment switch healthy (pod_of "sentinel" "Running" "") refl refl refl

reconcile-no_sentinel_example :
    ((reconcile environment switch unlisted).0 ≡ panicked)
    × ((reconcile environment switch unlisted).1.log ≡ [])
reconcile-no_sentinel_example = reconcile-no_sentinel environment switch unlisted refl refl refl
