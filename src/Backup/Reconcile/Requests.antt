-- ===== src/Backup/Reconcile/Requests.antt =====
-- Every pass of the reconciler of RedisBackup, from the read of the resource on.
use mathlib.Core.Path.{sym, ◌∙◌}
use redis_backup_operator.Base.{
  String, ◌==◌, ◌≡◌, refl, inl, inr, List, [], ◌∷◌, Bool-cases, Option-cases, eq_iff, ==-eq-true,
}
use mathlib.Core.Bool.{false≢true}
use redis_backup_operator.Base.Text.{◌+++◌}
use redis_backup_operator.Types.Kubernetes.{NamespacedName, Pod}
use redis_backup_operator.Types.Backup.{RedisBackup}
use redis_backup_operator.Runtime.{World, Environment}
use redis_backup_operator.Backup.{
  MasterSearch, found, not_running, no_master, broken, search_master, pod_labels,
}
use redis_backup_operator.Backup.Reconcile.{reconcile_pods, reconcile_instance, reconcile}
use redis_backup_operator.Backup.Reconcile.Writes.{PassTrace, idle}
use redis_backup_operator.Backup.Reconcile.Creation.{reconcile_job-PassTrace}
use redis_backup_operator.Backup.Reconcile.Passes.{reconcile_cron_job-PassTrace}

-- The pods that the list of the cluster's redis pods answers, in the state that the read of the
-- cluster's secret left
abbrev pub listed_by : {S : Type 0} → Environment S → String → String → S → List Pod
listed_by env namespace cluster_name s =
    (env.api.list_pods
      (("app.kubernetes.io/component", "redis")
        ∷ ("app.kubernetes.io/managed-by", "redis-operator")
        ∷ ("app.kubernetes.io/name", cluster_name)
        ∷ ("app.kubernetes.io/part-of", "redis-failover")
        ∷ [])
      (env.api.get_secret (record { namespace = namespace; name = cluster_name +++ "-redis-auth" })
        s).1).0.value

module _ {S : Type 0} (env : Environment S) (backup : RedisBackup) where
  module _ (namespace pass : String) (pods : List Pod) (w : World S) where
    found-PassTrace :
        (pvc : String)
        → search_master pods ≡ found pvc
        → PassTrace env backup pods w.log (reconcile_pods env backup namespace pass pods w).1.log
    unfolding reconcile_pods
    found-PassTrace pvc chosen = elim (Bool-cases (pvc == "")) [
      | inl empty ↦ rw (reconcile_pods, chosen, empty) (idle refl)
      | inr full ↦ elim (Bool-cases (backup.spec.backup_schedule == "")) [
        | inl once ↦
            rw (reconcile_pods, chosen, full, once)
              (reconcile_job-PassTrace env backup pods pvc chosen namespace _ pass w
                ((eq_iff backup.spec.backup_schedule "").0 once))
        | inr cron ↦
            rw (reconcile_pods, chosen, full, cron)
              (reconcile_cron_job-PassTrace env backup pods pvc chosen namespace _ pass w
                (λ e. false≢true (sym cron ∙ ==-eq-true backup.spec.backup_schedule "" e)))
      ]
    ]

    search-PassTrace :
        (m : MasterSearch)
        → search_master pods ≡ m
        → PassTrace env backup pods w.log (reconcile_pods env backup namespace pass pods w).1.log
    unfolding reconcile_pods
    search-PassTrace (found pvc) e = found-PassTrace pvc e
    search-PassTrace not_running e = rw (reconcile_pods, e) (idle refl)
    search-PassTrace no_master e = rw (reconcile_pods, e) (idle refl)
    search-PassTrace broken e = rw (reconcile_pods, e) (idle refl)

  reconcile_instance-PassTrace :
      (namespace : String) (w : World S)
      → PassTrace env backup
          (listed_by env namespace backup.spec.cluster_name w.cluster)
          w.log
          (reconcile_instance env backup namespace w).1.log
  unfolding reconcile_instance
  reconcile_instance-PassTrace namespace w =
      let key : NamespacedName = record {
        namespace = namespace;
        name = backup.spec.cluster_name +++ "-redis-auth";
      } in
      let secret = env.api.get_secret key w.cluster in
      let pods = env.api.list_pods (pod_labels "redis" backup.spec.cluster_name) secret.1 in
      elim (Option-cases (secret.0).error) [
        | inr (err, fails) ↦ rw (reconcile_instance, fails) (idle refl)
        | inl read ↦ elim (Option-cases (pods.0).error) [
          | inr (err, fails) ↦ rw (reconcile_instance, read, fails) (idle refl)
          | inl listed ↦
              rw (reconcile_instance, read, listed)
                (search-PassTrace namespace _ (pods.0).value
                  (record { cluster = pods.1; log = w.log }) _ refl)
        ]
      ]

-- Whatever the cluster answers, also while others change it, a pass of Reconcile sends nothing
-- or what `PassTrace` lists for the resource that was read and the redis pods of its cluster that
-- were listed after the read of the secret: one
-- object created, for the claim of the running master, with the settings recorded behind it for a
-- CronJob; one object deleted, for a CronJob; the conditions of a Job replaced; or the history of
-- a CronJob extended by a new record and the settings recorded.
pub reconcile-PassTrace :
    {S : Type 0} (env : Environment S) (req : NamespacedName) (w : World S)
    → PassTrace env
        (env.api.get_redis_backup req w.cluster).0.value
        (listed_by env req.namespace
          (env.api.get_redis_backup req w.cluster).0.value.spec.cluster_name
          (env.api.get_redis_backup req w.cluster).1)
        w.log
        (reconcile env req w).1.log
unfolding reconcile
reconcile-PassTrace env req w =
    let got = env.api.get_redis_backup req w.cluster in
    let trace =
      reconcile_instance-PassTrace env (got.0).value req.namespace
        (record { cluster = got.1; log = w.log }) in
    elim (Option-cases (got.0).error) [
      | inl read ↦ rw (reconcile, read) trace
      | inr (err, fails) ↦ elim (Bool-cases err.is_not_found) [
        | inl missing ↦ rw (reconcile, fails, missing) (idle refl)
        | inr other ↦ rw (reconcile, fails, other) trace
      ]
    ]
