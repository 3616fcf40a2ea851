-- ===== src/Backup/Reconcile/Reads.antt =====
-- What a pass reads first: the backup, the secret and the pods.
use redis_backup_operator.Base.{◌≡◌, ◌∙◌, none, some, List, if◌then◌else◌}
use redis_backup_operator.Base.Text.{◌+++◌, get}
use redis_backup_operator.Types.Kubernetes.{NamespacedName, Pod, Secret}
use redis_backup_operator.Types.Backup.{RedisBackup}
use redis_backup_operator.Runtime.{
  World, Environment, Reply, done, pure, requeued, call, ◌>>=◌, >>=-call,
}
use redis_backup_operator.Backup.{pod_labels}
use redis_backup_operator.Backup.Reconcile.{reconcile_pods, reconcile_instance, reconcile}

abbrev pub success : {A : Type 0} → A → Reply A
success a = record { value = a; error = none }

-- Reads that succeed and change nothing are passed over.
pub reconcile-pods :
    {S : Type 0} (env : Environment S) (req : NamespacedName) (b : RedisBackup) (secret : Secret)
    (pods : List Pod) (w : World S)
    → env.api.get_redis_backup req w.cluster ≡ (success b, w.cluster)
    → env.api.get_secret
        (record { namespace = req.namespace; name = b.spec.cluster_name +++ "-redis-auth" })
        w.cluster
      ≡ (success secret, w.cluster)
    → env.api.list_pods (pod_labels "redis" b.spec.cluster_name) w.cluster
      ≡ (success pods, w.cluster)
    → reconcile env req w
      ≡ reconcile_pods env b req.namespace (get "password" secret.content) pods w
unfolding reconcile reconcile_instance
reconcile-pods env req b secret pods w got_backup got_secret got_pods =
    >>=-call (env.api.get_redis_backup req)
      (λ got. elim (got.error) [
        | none ↦ reconcile_instance env got.value req.namespace
        | some err ↦
            if err.is_not_found then pure done else reconcile_instance env got.value req.namespace
      ])
      w got_backup
    ∙ >>=-call (env.api.get_secret _)
        (λ secret. elim (secret.error) [
          | none ↦ call (env.api.list_pods (pod_labels "redis" b.spec.cluster_name)) >>= λ pods.
              elim (pods.error) [
                | none ↦
                    reconcile_pods env b req.namespace (get "password" secret.value.content)
                      pods.value
                | some err ↦ pure done
              ]
          | some err ↦ pure (requeued err)
        ])
        w got_secret
    ∙ >>=-call (env.api.list_pods _)
        (λ pods. elim (pods.error) [
          | none ↦ reconcile_pods env b req.namespace (get "password" secret.content) pods.value
          | some err ↦ pure done
        ])
        w got_pods
