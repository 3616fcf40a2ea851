-- ===== src/Backup/Reconcile/Beta.antt =====
-- What a pass does with an existing CronJob under `batch/v1beta1`.
use redis_backup_operator.Base.{
  String, ◌==◌, ◌≡◌, refl, ◌≢◌, ◌⊎◌, inl, inr, sym, ap, ◌∙◌, true, none, some, List, ◌∷◌,
  if◌then◌else◌, Bool-cases, ==-eq-true, eq_iff,
}
use mathlib.Core.Bool.{false≢true}
use redis_backup_operator.Types.Backup.{RedisBackup, LastBackupInfo}
use redis_backup_operator.Types.Kubernetes.{NamespacedName, CronJob, Object, ApiResourceList}
use redis_backup_operator.Runtime.{
  World, M, Result, Reply, deletes, Environment, returned, or_panic, call, ◌>>=◌, >>=-returned,
}
use redis_backup_operator.Cronjob.{
  make_cron_job, existence, exist_cron_job, cron_job_version_v1beta1,
}
use redis_backup_operator.Backup.{found, search_master, first_claim, scan_versions}
use redis_backup_operator.Backup.Steps.{backup_info, sync_history, delete_built}
use redis_backup_operator.Backup.Reconcile.{
  reconcile_version, sync_cron_job, sync_v1, sync_v1beta1, sync_found, get_by_version, reconcile,
}
use redis_backup_operator.Backup.Reconcile.Writes.{
  HistoryTrace, delete_built-log, sync_history-HistoryTrace,
}
use redis_backup_operator.Backup.Reconcile.Decisions.{
  got, backup, secret, listed, pods, key, host_port, password, versions, reconcile-version,
}

module _ {S : Type 0} (env : Environment S) (b : RedisBackup) (info : LastBackupInfo) (o : Object)
    (claim old host pass : String) where
  abbrev by_claim : M S Result
  by_claim = if claim == old then sync_history env b info host pass else delete_built env o

  sync_found-by_claim :
      (c : CronJob) (u : World S)
      → first_claim c.spec.job_template.template ≡ some old
      → sync_found env b info o claim host pass (some c) none u ≡ by_claim u
  unfolding sync_found
  sync_found-by_claim c u claims =
      >>=-returned (or_panic (first_claim c.spec.job_template.template))
        (λ found_claim.
          if claim == found_claim then sync_history env b info host pass else delete_built env o)
        u (ap (λ x. or_panic x u) claims)

  exist_cron_job-found :
      (namespace : String) (u : World S) {again : Reply CronJob × S}
      → env.api.get_cron_job_v1beta1
          (record { namespace = namespace; name = b.metadata.name })
          u.cluster
        ≡ again
      → (again.0).error ≡ none
      → exist_cron_job b.metadata.name namespace env.api.get_cron_job_v1beta1 u
        ≡ (returned (true, some (again.0).value, none), record u { cluster = again.1 })
  unfolding exist_cron_job
  exist_cron_job-found namespace u {again} answers fine =
      ap (λ r. (returned (existence r.0), record u { cluster = r.1 })) answers ∙ rw fine refl

  sync_v1beta1-by_claim :
      (namespace : String) (u : World S) (again : Reply CronJob × S)
      → env.api.get_cron_job_v1beta1
          (record { namespace = namespace; name = b.metadata.name })
          u.cluster
        ≡ again
      → (again.0).error ≡ none
      → first_claim (again.0).value.spec.job_template.template ≡ some old
      → sync_v1beta1 env b info o namespace claim host pass u
        ≡ by_claim (record u { cluster = again.1 })
  unfolding sync_v1beta1
  sync_v1beta1-by_claim namespace u again answers fine claims =
      >>=-returned (exist_cron_job b.metadata.name namespace env.api.get_cron_job_v1beta1)
        (λ r. sync_found env b info o claim host pass r.1 r.2) u
        (exist_cron_job-found namespace u answers fine)
      ∙ sync_found-by_claim (again.0).value (record u { cluster = again.1 }) claims

module _ {S : Type 0} (env : Environment S) (req : NamespacedName) (w : World S) where
  -- The answers to the two look-ups of the CronJob
  abbrev pub got_beta : Reply CronJob × S
  got_beta = env.api.get_cron_job_v1beta1 (key env req w) (versions env req w).1

  abbrev pub got_again : Reply CronJob × S
  got_again = env.api.get_cron_job_v1beta1 (key env req w) got_beta.1

  sync_cron_job-beta :
      (claim version : String) (o : Object) (u : World S)
      → (version == cron_job_version_v1beta1) ≡ true
      → make_cron_job env.host.lookup_env "backupCronjob"
          (backup env req w).spec.backup_schedule
          version
          claim
          (backup env req w).spec.cluster_name
          (backup env req w)
          (pods env req w)
        ≡ some o
      → sync_cron_job env
          (backup env req w)
          (backup_info (backup env req w).spec)
          version
          req.namespace
          claim
          (host_port env req w)
          (password env req w)
          (pods env req w)
          u
        ≡ sync_v1beta1 env
            (backup env req w)
            (backup_info (backup env req w).spec)
            o
            req.namespace
            claim
            (host_port env req w)
            (password env req w)
            u
  unfolding sync_cron_job
  sync_cron_job-beta claim version o u beta built =
      >>=-returned (or_panic _)
        (λ object.
          if version == cron_job_version_v1beta1
          then sync_v1beta1 env (backup env req w) (backup_info (backup env req w).spec) object
              req.namespace claim (host_port env req w) (password env req w)
          else sync_v1 env (backup env req w) (backup_info (backup env req w).spec) object
              (host_port env req w) (password env req w))
        u (ap (λ x. or_panic x u) built)
      ∙ rw beta refl

  -- How a pass over an existing CronJob on the claim `old` ends.
  abbrev pub Rebuilds : String → String → Object → Type 0
  Rebuilds claim old o =
      ((claim ≢ old) × ((reconcile env req w).1.log ≡ deletes o ∷ w.log))
      ⊎ ((claim ≡ old)
          × HistoryTrace env (backup env req w) (backup_info (backup env req w).spec) w.log
              (reconcile env req w).1.log)

  -- With a schedule, the discovered version `batch/v1beta1` and a CronJob of the backup's name that
  -- stays between its two look-ups, a pass over a cluster that answers its reads, with a running
  -- master, deletes the CronJob exactly when its claim is not that of the master; otherwise,
  -- whether or not the settings have changed, it deletes nothing, and sends only what
  -- `HistoryTrace` lists.
  pub reconcile-Rebuilds :
      (claim old : String)
      → ((got env req w).0).error ≡ none
      → ((secret env req w).0).error ≡ none
      → ((listed env req w).0).error ≡ none
      → search_master (pods env req w) ≡ found claim
      → claim ≢ ""
      → (rs : List ApiResourceList) (o : Object) → (backup env req w).spec.backup_schedule ≢ ""
      → (versions env req w).0 ≡ returned rs
      → (scan_versions rs "" == cron_job_version_v1beta1) ≡ true
      → (got_beta.0).error ≡ none
      → (got_again.0).error ≡ none
      → first_claim (got_again.0).value.spec.job_template.template ≡ some old
      → make_cron_job env.host.lookup_env "backupCronjob"
          (backup env req w).spec.backup_schedule
          (scan_versions rs "")
          claim
          (backup env req w).spec.cluster_name
          (backup env req w)
          (pods env req w)
        ≡ some o
      → Rebuilds claim old o
  unfolding reconcile_version get_by_version
  reconcile-Rebuilds claim old read unsealed fine chosen full rs o cron discovered beta exists again
        claims built =
      let u : World S = record { cluster = got_beta.1; log = w.log } in
      let u' : World S = record { cluster = got_again.1; log = w.log } in
      rw
        (
          reconcile-version env req w claim read unsealed fine chosen full rs cron discovered,
          reconcile_version,
          get_by_version,
          beta,
          ◌>>=◌,
          call,
          exists,
          sync_cron_job-beta claim (scan_versions rs "") o u beta built,
          sync_v1beta1-by_claim env (backup env req w) (backup_info (backup env req w).spec) o claim
              old (host_port env req w) (password env req w) req.namespace u got_again refl again
              claims,
        )
        (elim (Bool-cases (claim == old)) [
          | inl same ↦ inr (
            (eq_iff claim old).0 same,
            rw same (
                sync_history-HistoryTrace env (backup env req w)
                  (backup_info (backup env req w).spec) (host_port env req w) (password env req w)
                  u'),
          )
          | inr other ↦ inl (
            λ e. false≢true (sym other ∙ ==-eq-true claim old e),
            rw other (delete_built-log env o u'),
          )
        ])
