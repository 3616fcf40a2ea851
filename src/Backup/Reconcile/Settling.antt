-- ===== src/Backup/Reconcile/Settling.antt =====
-- How a backup with a schedule settles: a missing CronJob is created and its settings recorded, and
-- with the settings recorded a CronJob stays.
use redis_backup_operator.Base.{
  String, ◌==◌, ◌≡◌, ◌≢◌, inl, inr, sym, ap, ◌∙◌, true, false, none, some, List, ◌∷◌,
}
use redis_backup_operator.Types.Kubernetes.{NamespacedName, Object, ApiResourceList, CronJob}
use redis_backup_operator.Types.Backup.{RedisBackup}
use redis_backup_operator.Runtime.{
  World, Reply, creates, updates_backup, Environment, returned, or_panic, call, ◌>>=◌, >>=-returned,
  GoError,
}
use redis_backup_operator.Cronjob.{make_cron_job, cron_job_version_v1beta1}
use redis_backup_operator.Backup.{found, search_master, scan_versions}
use redis_backup_operator.Backup.Steps.{
  backup_info, with_info, create_owned, create_backup, record_info,
}
use redis_backup_operator.Backup.Reconcile.{get_by_version, reconcile_version, reconcile}
use redis_backup_operator.Backup.Reconcile.Writes.{HistoryTrace, record_info-log}
use redis_backup_operator.Backup.Reconcile.Decisions.{
  got, backup, secret, listed, pods, key, versions, got_cron_job, reconcile-version,
  reconcile-rebuilds,
}

module _ {S : Type 0} (env : Environment S) (b : RedisBackup) where
  create_owned-records :
      (o : Object) (u : World S)
      → (env.api.set_controller_reference b o).error ≡ none
      → (env.api.create (env.api.set_controller_reference b o).value u.cluster).0 ≡ none
      → (create_owned env b o (record_info env b (backup_info b.spec)) u).1.log
        ≡ updates_backup (with_info b (backup_info b.spec))
          ∷ creates (env.api.set_controller_reference b o).value
          ∷ u.log
  unfolding create_owned
  create_owned-records o u owned granted =
      rw (create_owned, owned, granted) (record_info-log env b (backup_info b.spec) _)

module _ {S : Type 0} (env : Environment S) (req : NamespacedName) (w : World S) (claim : String)
    (rs : List ApiResourceList) (o : Object) (read : ((got env req w).0).error ≡ none)
    (unsealed : ((secret env req w).0).error ≡ none) (fine : ((listed env req w).0).error ≡ none)
    (chosen : search_master (pods env req w) ≡ found claim) (full : claim ≢ "")
    (cron : (backup env req w).spec.backup_schedule ≢ "")
    (discovered : (versions env req w).0 ≡ returned rs)
    (built : make_cron_job env.host.lookup_env "backupCronjob"
        (backup env req w).spec.backup_schedule
        (scan_versions rs "")
        claim
        (backup env req w).spec.cluster_name
        (backup env req w)
        (pods env req w)
      ≡ some o) where
  abbrev pub b : RedisBackup
  b = backup env req w

  abbrev pub owned_object : Reply Object
  owned_object = env.api.set_controller_reference b o

  abbrev pub lookup_of : Reply CronJob × S
  lookup_of = get_by_version env (scan_versions rs "") (key env req w) (versions env req w).1

  -- With a schedule and no CronJob of the backup's name, a pass over a cluster that answers its
  -- reads, with a running master, sends two requests, if the new object can be given its owner and
  -- is accepted: it creates the CronJob that MakeCronJob builds for the master's claim, and it
  -- records the settings in the status.
  reconcile-creates_cron_job :
      {err : GoError}
      → (lookup_of.0).error ≡ some err
      → err.is_not_found ≡ true
      → owned_object.error ≡ none
      → (env.api.create owned_object.value lookup_of.1).0 ≡ none
      → (reconcile env req w).1.log
        ≡ updates_backup (with_info b (backup_info b.spec)) ∷ creates owned_object.value ∷ w.log
  unfolding reconcile_version create_backup
  reconcile-creates_cron_job fails missing owned granted =
      let u : World S = record { cluster = lookup_of.1; log = w.log } in
      rw
        (
          reconcile-version env req w claim read unsealed fine chosen full rs cron discovered,
          reconcile_version,
          ◌>>=◌,
          call,
          fails,
          missing,
        )
        (ap (λ r. r.1.log)
            (>>=-returned (or_panic _)
              (λ object. create_owned env b object (record_info env b (backup_info b.spec))) u
              (ap (λ x. or_panic x u) built))
          ∙ create_owned-records env b o u owned granted)

  -- With a schedule, a discovered version other than `batch/v1beta1`, a CronJob of the backup's
  -- name, and the settings recorded in the status, a pass over a cluster that answers its reads,
  -- with a running master, deletes nothing and creates nothing: it sends only what `HistoryTrace`
  -- lists.
  pub reconcile-settled :
      (scan_versions rs "" == cron_job_version_v1beta1) ≡ false
      → ((got_cron_job env req w).0).error ≡ none
      → b.status.last_backup_info ≡ backup_info b.spec
      → HistoryTrace env b (backup_info b.spec) w.log (reconcile env req w).1.log
  reconcile-settled v1 exists recorded =
      elim (reconcile-rebuilds env req w claim read unsealed fine chosen full rs o cron discovered
        v1 exists built) [
          | inl (changed, _) ↦ absurd (
              changed (
                ap (λ i. i.backup_secret_name) (sym recorded),
                ap (λ i. i.backup_url) (sym recorded),
                ap (λ i. i.backup_schedule) (sym recorded),
              ))
          | inr (_, kept) ↦ kept
        ]
