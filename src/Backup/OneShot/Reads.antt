-- ===== src/Backup/OneShot/Reads.antt =====
-- What a pass over a lawful store reads, up to the look-up of the Job.
use redis_backup_operator.Base.{String, ◌≡◌, refl, ◌∙◌, none, some, if◌then◌else◌, ==-eq-false}
use redis_backup_operator.Base.Text.{get}
use redis_backup_operator.Types.Kubernetes.{NamespacedName, Job}
use redis_backup_operator.Types.Backup.{RedisBackup, RedisBackupStatus}
use redis_backup_operator.Runtime.{
  World, Environment, Reply, Result, done, pure, requeued, M, >>=-call,
}
use redis_backup_operator.Backup.Steps.{create_backup, sync_job_status}
use redis_backup_operator.Backup.Reconcile.Reads.{reconcile-pods, success}
use redis_backup_operator.Backup.Reconcile.{reconcile_job, reconcile_pods, reconcile}
use redis_backup_operator.Backup.OneShot.Store.{Store, sentinel_of}

module _ {S : Type 0} {env : Environment S} {req : NamespacedName} (store : Store env req) where
  abbrev pub b_of : RedisBackupStatus → RedisBackup
  b_of st = record { metadata = store.metadata; spec = store.spec; status = st }

  abbrev pub backup_at : S → RedisBackup
  backup_at s = b_of (store.status_at s)

  abbrev pub password : String
  password = get "password" store.secret.content

  abbrev pub host_port : String
  host_port = sentinel_of store.metadata store.spec

  reconcile-reads :
      (w : World S)
      → reconcile env req w
        ≡ reconcile_pods env
            (backup_at w.cluster)
            req.namespace
            password
            (store.pods_at w.cluster)
            w
  reconcile-reads w =
      reconcile-pods env req (backup_at w.cluster) store.secret (store.pods_at w.cluster) w
        (store.get_backup w.cluster) (store.get_secret w.cluster) (store.list_pods w.cluster)

  -- What follows the look-up of the Job
  abbrev pub by_answer : S → Reply Job → M S Result
  by_answer s got =
      let b = backup_at s in
      elim (got.error) [
        | some err ↦
            if err.is_not_found
            then create_backup env b store.metadata.name "" (store.claim_at s) (store.pods_at s)
                (pure done)
            else pure (requeued err)
        | none ↦ sync_job_status env b got.value store.metadata.name host_port password
      ]

  pub reconcile-by_answer :
      (w : World S)
      → reconcile env req w
        ≡ by_answer w.cluster
            (elim (store.job_at w.cluster) [ none ↦ store.missing | some j ↦ success j ])
            w
  unfolding reconcile_pods reconcile_job
  reconcile-by_answer w =
      reconcile-reads w
      ∙ rw
          (
            reconcile_pods,
            store.master w.cluster,
            ==-eq-false (store.claim_at w.cluster) "" (store.claimed w.cluster),
            store.unscheduled,
          )
          refl
      ∙ >>=-call
          (env.api.get_job (record { namespace = req.namespace; name = store.metadata.name }))
          (by_answer w.cluster) w (store.get_job w.cluster)
