-- ===== src/Backup/Reconcile/Creation.antt =====
-- The requests where the Job or the CronJob may be missing, and the whole branch for a Job.
use mathlib.Core.Path.{◌∙◌, ap}
use redis_backup_operator.Base.{
  String, ◌≡◌, refl, ◌≢◌, ◌⊎◌, inl, inr, List, ◌∷◌, Bool-cases, Option-cases,
}
use redis_backup_operator.Types.Kubernetes.{NamespacedName, Pod, Object}
use redis_backup_operator.Types.Backup.{RedisBackup}
use redis_backup_operator.Runtime.{M, World, Result, creates, Environment, done, pure, or_panic}
use redis_backup_operator.Cronjob.{make_cron_job}
use redis_backup_operator.Backup.{found, search_master}
use redis_backup_operator.Backup.Steps.{backup_info, create_owned, create_backup, record_info}
use redis_backup_operator.Backup.Reconcile.{reconcile_job}
use redis_backup_operator.Backup.Reconcile.Writes.{
  IsBuilt, PassTrace, idle, creates_object, creates_recorded, sets_conditions, record_info-log,
  sync_job_status-log,
}

module _ {S : Type 0} (env : Environment S) (backup : RedisBackup) (pods : List Pod) (pvc : String)
    (chosen : search_master pods ≡ found pvc) where
  -- The object is created and then `after` runs, or it is not.
  create_owned-log :
      (o : Object) (after : M S Result) (w : World S)
      → ((create_owned env backup o after w).1.log ≡ w.log)
        ⊎ ((create_owned env backup o after w).1.log
            ≡ creates (env.api.set_controller_reference backup o).value ∷ w.log)
        ⊎ ((s : S) × (create_owned env backup o after w
              ≡ after (record {
                cluster = s;
                log = creates (env.api.set_controller_reference backup o).value ∷ w.log;
              })))
  unfolding create_owned
  create_owned-log o after w =
      let owned = env.api.set_controller_reference backup o in
      elim (Option-cases owned.error) [
        | inr (err, fails) ↦ inl (rw (create_owned, fails) refl)
        | inl fine ↦ elim (Option-cases (env.api.create owned.value w.cluster).0) [
          | inr (err, fails) ↦ inr (inl (rw (create_owned, fine, fails) refl))
          | inl granted ↦ inr (
              inr ((env.api.create owned.value w.cluster).1, rw (create_owned, fine, granted) refl))
        ]
      ]

  create_backup-done :
      (key version : String) (w : World S)
      → PassTrace env backup pods w.log
          (create_backup env backup key version pvc pods (pure done) w).1.log
  unfolding create_backup
  create_backup-done key version w =
      elim (Option-cases (
        make_cron_job env.host.lookup_env key backup.spec.backup_schedule version pvc
          backup.spec.cluster_name backup pods)) [
            | inl panics ↦ rw (create_backup, or_panic, panics) (idle refl)
            | inr (o, built) ↦
                let is : IsBuilt env backup pvc pods o = record {
                  key = key;
                  version = version;
                  built = built;
                } in
                rw (create_backup, or_panic, built)
                  (elim (create_owned-log o (pure done) w) [
                    | inl same ↦ idle same
                    | inr (inl sent) ↦ creates_object pvc o chosen is sent
                    | inr (inr (s, runs)) ↦ creates_object pvc o chosen is (ap (λ r. r.1.log) runs)
                  ])
          ]

  pub create_backup-recorded :
      (key version : String) (w : World S)
      → backup.spec.backup_schedule ≢ ""
      → PassTrace env backup pods w.log
          (create_backup env backup key version pvc pods
            (record_info env backup (backup_info backup.spec))
            w).1.log
  unfolding create_backup
  create_backup-recorded key version w full =
      elim (Option-cases (
        make_cron_job env.host.lookup_env key backup.spec.backup_schedule version pvc
          backup.spec.cluster_name backup pods)) [
            | inl panics ↦ rw (create_backup, or_panic, panics) (idle refl)
            | inr (o, built) ↦
                let is : IsBuilt env backup pvc pods o = record {
                  key = key;
                  version = version;
                  built = built;
                } in
                let info = backup_info backup.spec in
                rw (create_backup, or_panic, built)
                  (elim (create_owned-log o (record_info env backup info) w) [
                    | inl same ↦ idle same
                    | inr (inl sent) ↦ creates_object pvc o chosen is sent
                    | inr (inr (s, runs)) ↦
                        creates_recorded pvc o chosen full is
                          (ap (λ r. r.1.log) runs ∙ record_info-log env backup info _)
                  ])
          ]

  pub reconcile_job-PassTrace :
      (namespace host pass : String) (w : World S)
      → backup.spec.backup_schedule ≡ ""
      → PassTrace env backup pods w.log
          (reconcile_job env backup namespace pvc host pass pods w).1.log
  unfolding reconcile_job
  reconcile_job-PassTrace namespace host pass w empty =
      let key : NamespacedName = record { namespace = namespace; name = backup.metadata.name } in
      let got = env.api.get_job key w.cluster in
      elim (Option-cases (got.0).error) [
        | inl fine ↦
            rw (reconcile_job, fine)
              (elim (sync_job_status-log env backup (got.0).value backup.metadata.name host pass
                (record { cluster = got.1; log = w.log })) [
                  | inl same ↦ idle same
                  | inr (cs, sent) ↦ sets_conditions cs empty sent
                ])
        | inr (err, fails) ↦ elim (Bool-cases err.is_not_found) [
          | inl missing ↦
              rw (reconcile_job, fails, missing)
                (create_backup-done backup.metadata.name ""
                  (record { cluster = got.1; log = w.log }))
          | inr other ↦ rw (reconcile_job, fails, other) (idle refl)
        ]
      ]
