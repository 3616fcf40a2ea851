-- ===== src/Backup/Reconcile/Passes.antt =====
-- The requests of the branch for a CronJob.
use mathlib.Core.Path.{sym, ap, subst}
use redis_backup_operator.Base.{
  String, ◌==◌, ◌≡◌, refl, ◌≢◌, ◌⊎◌, inl, inr, Option, none, some, List, arith, Bool-cases,
  Option-cases, if◌then◌else◌,
}
use redis_backup_operator.Types.Kubernetes.{NamespacedName, Pod, CronJob, Object, ApiResourceList}
use redis_backup_operator.Types.Backup.{RedisBackup}
use redis_backup_operator.Runtime.{
  World, GoError, Outcome, returned, panicked, exited, Environment, ◌>>=◌, or_panic, call,
  >>=-returned,
}
use redis_backup_operator.Cronjob.{make_cron_job, exist_cron_job, cron_job_version_v1beta1}
use redis_backup_operator.Cronjob.Exists.{exist_cron_job-returns}
use redis_backup_operator.Backup.{scan_versions, found, search_master, first_claim}
use redis_backup_operator.Backup.Steps.{backup_info, same_info, sync_history, delete_built}
use redis_backup_operator.Backup.Reconcile.{
  get_cron_job_version, sync_found, sync_v1beta1, sync_v1, sync_cron_job, reconcile_cron_job,
  reconcile_version, get_by_version,
}
use redis_backup_operator.Backup.Reconcile.Writes.{
  IsBuilt, PassTrace, idle, deletes_object, history, delete_built-log, sync_history-HistoryTrace,
}
use redis_backup_operator.Backup.Reconcile.Creation.{create_backup-recorded}

module _ {S : Type 0} (env : Environment S) (backup : RedisBackup) (pods : List Pod) (pvc : String)
    (chosen : search_master pods ≡ found pvc) where
  module _ (full : backup.spec.backup_schedule ≢ "") (o : Object)
      (is : IsBuilt env backup pvc pods o) where
    sync_v1-PassTrace :
        (host pass : String) (w : World S)
        → PassTrace env backup pods w.log
            (sync_v1 env backup (backup_info backup.spec) o host pass w).1.log
    unfolding sync_v1
    sync_v1-PassTrace host pass w =
        let info = backup_info backup.spec in
        elim (Bool-cases (same_info info backup.status.last_backup_info)) [
          | inl same ↦
              rw (sync_v1, same)
                (history full (sync_history-HistoryTrace env backup info host pass w))
          | inr changed ↦
              rw (sync_v1, changed) (deletes_object pvc o chosen full is (delete_built-log env o w))
        ]

    sync_claim-PassTrace :
        (old host pass : String) (w : World S)
        → PassTrace env backup pods w.log
            ((if pvc == old
                then sync_history env backup (backup_info backup.spec) host pass
                else delete_built env o)
              w).1.log
    sync_claim-PassTrace old host pass w =
        let info = backup_info backup.spec in
        elim (Bool-cases (pvc == old)) [
          | inl same ↦
              rw same (history full (sync_history-HistoryTrace env backup info host pass w))
          | inr changed ↦
              rw changed (deletes_object pvc o chosen full is (delete_built-log env o w))
        ]

    sync_found-PassTrace :
        (host pass : String) (pointer : Option CronJob) (failure : Option GoError) (w : World S)
        → PassTrace env backup pods w.log
            (sync_found env backup
              (backup_info backup.spec)
              o
              pvc
              host
              pass
              pointer
              failure
              w).1.log
    unfolding sync_found
    sync_found-PassTrace host pass pointer (some err) w = idle refl
    sync_found-PassTrace host pass none none w = idle refl
    sync_found-PassTrace host pass (some c) none w =
        elim (Option-cases (first_claim c.spec.job_template.template)) [
          | inl absent ↦ rw (sync_found, or_panic, absent) (idle refl)
          | inr (old, claimed) ↦
              rw (sync_found, or_panic, claimed) (sync_claim-PassTrace old host pass w)
        ]

    sync_v1beta1-PassTrace :
        (namespace host pass : String) (w : World S)
        → PassTrace env backup pods w.log
            (sync_v1beta1 env backup (backup_info backup.spec) o namespace pvc host pass w).1.log
    unfolding sync_v1beta1
    sync_v1beta1-PassTrace namespace host pass w =
        let get = env.api.get_cron_job_v1beta1 in
        let returns = exist_cron_job-returns backup.metadata.name namespace get w in
        subst (λ r. PassTrace env backup pods w.log r.1.log)
          (sym (
            >>=-returned (exist_cron_job backup.metadata.name namespace get)
              (λ r. sync_found env backup (backup_info backup.spec) o pvc host pass r.1 r.2) w
              returns))
          (sync_found-PassTrace host pass _ _ _)

  sync_cron_job-PassTrace :
      (version namespace host pass : String) (w : World S)
      → backup.spec.backup_schedule ≢ ""
      → PassTrace env backup pods w.log
          (sync_cron_job env backup
            (backup_info backup.spec)
            version
            namespace
            pvc
            host
            pass
            pods
            w).1.log
  unfolding sync_cron_job
  sync_cron_job-PassTrace version namespace host pass w full =
      elim (Option-cases (
        make_cron_job env.host.lookup_env "backupCronjob" backup.spec.backup_schedule version pvc
          backup.spec.cluster_name backup pods)) [
            | inl panics ↦ rw (sync_cron_job, or_panic, panics) (idle refl)
            | inr (o, built) ↦
                let is : IsBuilt env backup pvc pods o = record {
                  key = "backupCronjob";
                  version = version;
                  built = built;
                } in
                elim (Bool-cases (version == cron_job_version_v1beta1)) [
                  | inl beta ↦
                      rw (sync_cron_job, or_panic, built, beta)
                        (sync_v1beta1-PassTrace full o is namespace host pass w)
                  | inr stable ↦
                      rw (sync_cron_job, or_panic, built, stable)
                        (sync_v1-PassTrace full o is host pass w)
                ]
          ]

  -- The version is known, or the process has ended, and nothing is sent.
  get_cron_job_version_cases :
      (w : World S)
      → ((v : String) × (s : S) × (get_cron_job_version env w
            ≡ (returned v, record { cluster = s; log = w.log })))
        ⊎ ((s : S) × (get_cron_job_version env w ≡ (panicked, record { cluster = s; log = w.log })))
        ⊎ ((s : S) × (get_cron_job_version env w ≡ (exited, record { cluster = s; log = w.log })))
  unfolding get_cron_job_version
  get_cron_job_version_cases w =
      let lists = env.api.server_preferred_resources w.cluster in by lists.0 refl
    where
      by :
          (o : Outcome (List ApiResourceList))
          → (env.api.server_preferred_resources w.cluster).0 ≡ o
          → ((v : String) × (s : S) × (get_cron_job_version env w
                ≡ (returned v, record { cluster = s; log = w.log })))
            ⊎ ((s : S) × (get_cron_job_version env w
                  ≡ (panicked, record { cluster = s; log = w.log })))
            ⊎ ((s : S) × (get_cron_job_version env w
                  ≡ (exited, record { cluster = s; log = w.log })))
      by (returned rs) e =
          inl (scan_versions rs "", (env.api.server_preferred_resources w.cluster).1, ground arith)
      by panicked e = inr (inl ((env.api.server_preferred_resources w.cluster).1, ground arith))
      by exited e = inr (inr ((env.api.server_preferred_resources w.cluster).1, ground arith))

  -- The branch of a backup with a schedule, once the version is known
  with_version-PassTrace :
      (version namespace host pass : String) (w : World S)
      → backup.spec.backup_schedule ≢ ""
      → PassTrace env backup pods w.log
          (reconcile_version env backup version namespace pvc host pass pods w).1.log
  unfolding reconcile_version
  with_version-PassTrace version namespace host pass w full =
      let key : NamespacedName = record { namespace = namespace; name = backup.metadata.name } in
      let got = get_by_version env version key w.cluster in
      let w' : World S = record { cluster = got.1; log = w.log } in
      elim (Option-cases (got.0).error) [
        | inl fine ↦
            rw (reconcile_version, ◌>>=◌, call, fine)
              (sync_cron_job-PassTrace version namespace host pass w' full)
        | inr (err, fails) ↦ elim (Bool-cases err.is_not_found) [
          | inl missing ↦
              rw (reconcile_version, ◌>>=◌, call, fails, missing)
                (create_backup-recorded env backup pods pvc chosen "backupCronjob" version w' full)
          | inr other ↦ rw (reconcile_version, ◌>>=◌, call, fails, other) (idle refl)
        ]
      ]

  pub reconcile_cron_job-PassTrace :
      (namespace host pass : String) (w : World S)
      → backup.spec.backup_schedule ≢ ""
      → PassTrace env backup pods w.log
          (reconcile_cron_job env backup namespace pvc host pass pods w).1.log
  unfolding reconcile_cron_job
  reconcile_cron_job-PassTrace namespace host pass w full = elim (get_cron_job_version_cases w) [
    | inl (v, s, e) ↦
        subst (λ r. PassTrace env backup pods w.log r.1.log)
          (sym (
            >>=-returned (get_cron_job_version env)
              (λ version. reconcile_version env backup version namespace pvc host pass pods) w e))
          (with_version-PassTrace v namespace host pass (record { cluster = s; log = w.log }) full)
    | inr (inl (s, e)) ↦ rw (reconcile_cron_job, ◌>>=◌, e) (idle (ap (λ r. r.1.log) e))
    | inr (inr (s, e)) ↦ rw (reconcile_cron_job, ◌>>=◌, e) (idle (ap (λ r. r.1.log) e))
  ]
