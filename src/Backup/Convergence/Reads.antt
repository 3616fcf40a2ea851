-- ===== src/Backup/Convergence/Reads.antt =====
-- What a pass over a lawful store reads, up to the version of the CronJob API.
use redis_backup_operator.Base.{String, ◌≡◌, refl, ap, ◌∙◌, ==-eq-false}
use redis_backup_operator.Base.Text.{◌+++◌, get}
use redis_backup_operator.Types.Kubernetes.{NamespacedName}
use redis_backup_operator.Types.Backup.{RedisBackup}
use redis_backup_operator.Runtime.{World, Environment, >>=-returned, Outcome}
use redis_backup_operator.Backup.{scan_versions}
use redis_backup_operator.Backup.Reconcile.Reads.{reconcile-pods}
use redis_backup_operator.Backup.Reconcile.{
  get_cron_job_version, reconcile_version, reconcile_cron_job, reconcile_pods, reconcile,
}
use redis_backup_operator.Backup.Convergence.Store.{Store}
use redis_backup_operator.Backup.Convergence.Endings.{b_of}

module _ {S : Type 0} {env : Environment S} {req : NamespacedName} (store : Store env req) where
  abbrev pub backup_at : S → RedisBackup
  backup_at s = b_of store (store.status_at s)

  abbrev pub version : String
  version = scan_versions store.versions ""

  abbrev pub password : String
  password = get "password" store.secret.content

  abbrev pub host_port : String
  host_port =
      "rfs-" +++ store.spec.cluster_name +++ "." +++ store.metadata.namespace
      +++ ".svc.cluster.local:26379"

  reconcile-reads :
      (w : World S)
      → reconcile env req w
        ≡ reconcile_pods env
            (backup_at w.cluster)
            req.namespace
            password
            (store.pods_at w.cluster)
            w
  reconcile-reads w =
      reconcile-pods env req (backup_at w.cluster) store.secret (store.pods_at w.cluster) w
        (store.get_backup w.cluster) (store.get_secret w.cluster) (store.list_pods w.cluster)

  reconcile-cron_job :
      (w : World S)
      → reconcile env req w
        ≡ reconcile_cron_job env
            (backup_at w.cluster)
            req.namespace
            (store.claim_at w.cluster)
            host_port
            password
            (store.pods_at w.cluster)
            w
  unfolding reconcile_pods
  reconcile-cron_job w =
      reconcile-reads w
      ∙ rw
          (
            reconcile_pods,
            store.master w.cluster,
            ==-eq-false (store.claim_at w.cluster) "" (store.claimed w.cluster),
            ==-eq-false store.spec.backup_schedule "" store.scheduled,
          )
          refl

  pub reconcile-version :
      (w : World S)
      → reconcile env req w
        ≡ reconcile_version env
            (backup_at w.cluster)
            version
            req.namespace
            (store.claim_at w.cluster)
            host_port
            password
            (store.pods_at w.cluster)
            w
  unfolding reconcile_cron_job get_cron_job_version
  reconcile-version w =
      reconcile-cron_job w
      ∙ >>=-returned (get_cron_job_version env)
          (λ v.
            reconcile_version env (backup_at w.cluster) v req.namespace (store.claim_at w.cluster)
              host_port password (store.pods_at w.cluster))
          w
          (ap
            (λ r. elim (r.0) [
              | Outcome.returned rs ↦
                  (Outcome.returned (scan_versions rs ""), record w { cluster = r.1 })
              | Outcome.panicked ↦ (Outcome.panicked, record w { cluster = r.1 })
              | Outcome.exited ↦ (Outcome.exited, record w { cluster = r.1 })
            ])
            (store.discover w.cluster))
