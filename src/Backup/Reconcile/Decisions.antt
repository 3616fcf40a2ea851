-- ===== src/Backup/Reconcile/Decisions.antt =====
-- What a pass does where the cluster answers its reads: it creates what is missing, and it
-- rebuilds a `batch/v1` CronJob exactly when the settings have changed.
use redis_backup_operator.Base.{
  String, ◌==◌, ◌≡◌, refl, ◌≢◌, ◌⊎◌, inl, inr, ap, ◌∙◌, true, false, none, some, List, ◌∷◌, arith,
  if◌then◌else◌, Bool-cases, ==-eq-false, ==-eq-true,
}
use redis_backup_operator.Base.Text.{◌+++◌, get}
use redis_backup_operator.Types.Kubernetes.{
  NamespacedName, Pod, Secret, Job, CronJob, Object, ApiResourceList,
}
use redis_backup_operator.Types.Backup.{RedisBackup}
use redis_backup_operator.Runtime.{
  World, Reply, GoError, creates, deletes, Environment, returned, Outcome, pure, done, or_panic,
  call, ◌>>=◌, >>=-returned,
}
use redis_backup_operator.Cronjob.{make_cron_job, cron_job_version_v1beta1}
use redis_backup_operator.Backup.{found, search_master, pod_labels, scan_versions}
use redis_backup_operator.Backup.Steps.{backup_info, same_info, create_owned, create_backup}
use redis_backup_operator.Backup.Reconcile.{
  get_cron_job_version, reconcile_job, reconcile_version, reconcile_cron_job, sync_cron_job,
  sync_v1, sync_v1beta1, get_by_version, reconcile_pods, reconcile_instance, reconcile,
}
use redis_backup_operator.Backup.Reconcile.Settings.{IsRecorded, Records-same_info}
use redis_backup_operator.Backup.Reconcile.Writes.{
  settings_of, HistoryTrace, delete_built-log, sync_history-HistoryTrace,
}

module _ {S : Type 0} (env : Environment S) (req : NamespacedName) (w : World S) where
  abbrev pub got : Reply RedisBackup × S
  got = env.api.get_redis_backup req w.cluster

  abbrev pub backup : RedisBackup
  backup = (got.0).value

  -- The answers to the reads of the secret and of the pods
  abbrev pub secret : Reply Secret × S
  secret =
      env.api.get_secret
        (record { namespace = req.namespace; name = backup.spec.cluster_name +++ "-redis-auth" })
        got.1

  abbrev pub listed : Reply (List Pod) × S
  listed = env.api.list_pods (pod_labels "redis" backup.spec.cluster_name) secret.1

  abbrev pub pods : List Pod
  pods = (listed.0).value

  -- The key under which the Job or CronJob is looked up
  abbrev pub key : NamespacedName
  key = record { namespace = req.namespace; name = backup.metadata.name }

  abbrev after_reads : World S
  after_reads = record { cluster = listed.1; log = w.log }

  abbrev pub password : String
  password = get "password" (secret.0).value.content

  abbrev pub host_port : String
  host_port =
      "rfs-" +++ backup.spec.cluster_name +++ "." +++ backup.metadata.namespace
      +++ ".svc.cluster.local:26379"

  -- The answers to the look-up of the Job, to the discovery, and to the look-up of the CronJob
  abbrev pub got_job : Reply Job × S
  got_job = env.api.get_job key listed.1

  abbrev pub versions : Outcome (List ApiResourceList) × S
  versions = env.api.server_preferred_resources listed.1

  abbrev pub got_cron_job : Reply CronJob × S
  got_cron_job = env.api.get_cron_job key versions.1

  -- The resource, the secret and the pods are read, and the running master has a claim.
  module _ (claim : String) (read : (got.0).error ≡ none) (unsealed : (secret.0).error ≡ none)
      (fine : (listed.0).error ≡ none) (chosen : search_master pods ≡ found claim)
      (full : claim ≢ "") where
    reconcile-reads :
        reconcile env req w ≡ reconcile_pods env backup req.namespace password pods after_reads
    unfolding reconcile reconcile_instance
    reconcile-reads = rw (reconcile, read, reconcile_instance, unsealed, fine)

    reconcile-job :
        backup.spec.backup_schedule ≡ ""
        → reconcile env req w
          ≡ reconcile_job env backup req.namespace claim host_port password pods after_reads
    unfolding reconcile_pods
    reconcile-job once =
        reconcile-reads
        ∙ rw (
          reconcile_pods,
          chosen,
          ==-eq-false claim "" full,
          ==-eq-true backup.spec.backup_schedule "" once,
        )

    reconcile-cron_job :
        backup.spec.backup_schedule ≢ ""
        → reconcile env req w
          ≡ reconcile_cron_job env backup req.namespace claim host_port password pods after_reads
    unfolding reconcile_pods
    reconcile-cron_job cron =
        reconcile-reads
        ∙ rw (
          reconcile_pods,
          chosen,
          ==-eq-false claim "" full,
          ==-eq-false backup.spec.backup_schedule "" cron,
        )

    create_owned-sends :
        (o : Object) (u : World S)
        → (env.api.set_controller_reference backup o).error ≡ none
        → (create_owned env backup o (pure done) u).1.log
          ≡ creates (env.api.set_controller_reference backup o).value ∷ u.log
    unfolding create_owned
    create_owned-sends o u owned = rw (create_owned, owned) (ground arith)

    -- With no schedule, and no Job of the backup's name, a pass over a cluster that answers its
    -- reads, with a running master, sends one request: it creates the Job that MakeCronJob builds
    -- for the master's claim, if that can be given its owner.
    reconcile-creates_job :
        {err : GoError} (o : Object)
        → backup.spec.backup_schedule ≡ ""
        → (got_job.0).error ≡ some err
        → err.is_not_found ≡ true
        → make_cron_job env.host.lookup_env backup.metadata.name backup.spec.backup_schedule ""
            claim backup.spec.cluster_name backup pods
          ≡ some o
        → (env.api.set_controller_reference backup o).error ≡ none
        → (reconcile env req w).1.log
          ≡ creates (env.api.set_controller_reference backup o).value ∷ w.log
    unfolding reconcile_job create_backup
    reconcile-creates_job o once fails missing built owned =
        rw (reconcile-job once, reconcile_job, fails, missing, create_backup, or_panic, built)
          (create_owned-sends o (record { cluster = got_job.1; log = w.log }) owned)

    get_cron_job_version-of :
        (rs : List ApiResourceList)
        → versions.0 ≡ returned rs
        → get_cron_job_version env after_reads
          ≡ (returned (scan_versions rs ""), record { cluster = versions.1; log = w.log })
    unfolding get_cron_job_version
    get_cron_job_version-of rs discovered = rw (get_cron_job_version, discovered)

    pub reconcile-version :
        (rs : List ApiResourceList)
        → backup.spec.backup_schedule ≢ ""
        → versions.0 ≡ returned rs
        → reconcile env req w
          ≡ reconcile_version env backup
              (scan_versions rs "")
              req.namespace
              claim
              host_port
              password
              pods
              (record { cluster = versions.1; log = w.log })
    unfolding reconcile_cron_job
    reconcile-version rs cron discovered =
        reconcile-cron_job cron
        ∙ >>=-returned (get_cron_job_version env)
            (λ v. reconcile_version env backup v req.namespace claim host_port password pods)
            after_reads (get_cron_job_version-of rs discovered)

    sync_cron_job-v1 :
        (version : String) (o : Object) (u : World S)
        → (version == cron_job_version_v1beta1) ≡ false
        → make_cron_job env.host.lookup_env "backupCronjob" backup.spec.backup_schedule version
            claim backup.spec.cluster_name backup pods
          ≡ some o
        → sync_cron_job env backup
            (backup_info backup.spec)
            version
            req.namespace
            claim
            host_port
            password
            pods
            u
          ≡ sync_v1 env backup (backup_info backup.spec) o host_port password u
    unfolding sync_cron_job
    sync_cron_job-v1 version o u v1 built =
        >>=-returned (or_panic _)
          (λ object.
            if version == cron_job_version_v1beta1
            then sync_v1beta1 env backup (backup_info backup.spec) object req.namespace claim
                host_port password
            else sync_v1 env backup (backup_info backup.spec) object host_port password)
          u (ap (λ x. or_panic x u) built)
        ∙ rw v1 refl

    -- With a schedule, a discovered version other than `batch/v1beta1` and a CronJob of the
    -- backup's name, a pass over a cluster that answers its reads, with a running master, deletes
    -- the CronJob exactly when the secret name, the URL or the schedule of the specification is not
    -- the one recorded in the status; otherwise it deletes nothing, and sends only what `HistoryTrace` lists.
    pub reconcile-rebuilds :
        (rs : List ApiResourceList) (o : Object)
        → backup.spec.backup_schedule ≢ ""
        → versions.0 ≡ returned rs
        → (scan_versions rs "" == cron_job_version_v1beta1) ≡ false
        → (got_cron_job.0).error ≡ none
        → make_cron_job env.host.lookup_env "backupCronjob" backup.spec.backup_schedule
            (scan_versions rs "")
            claim
            backup.spec.cluster_name
            backup
            pods
          ≡ some o
        → ((¬ IsRecorded backup.spec backup.status.last_backup_info)
            × ((reconcile env req w).1.log ≡ deletes o ∷ w.log))
          ⊎ (IsRecorded backup.spec backup.status.last_backup_info
              × HistoryTrace env backup (settings_of backup.spec) w.log (reconcile env req w).1.log)
    unfolding reconcile_version get_by_version sync_v1
    reconcile-rebuilds rs o cron discovered v1 exists built =
        let u : World S = record { cluster = got_cron_job.1; log = w.log } in
        rw
          (
            reconcile-version rs cron discovered,
            reconcile_version,
            get_by_version,
            v1,
            ◌>>=◌,
            call,
            exists,
            sync_cron_job-v1 (scan_versions rs "") o u v1 built,
            sync_v1,
          )
          (elim (Bool-cases (same_info (backup_info backup.spec) backup.status.last_backup_info)) [
            | inl same ↦ inr (
              Records-same_info backup.spec backup.status.last_backup_info true same,
              rw same (
                  sync_history-HistoryTrace env backup (backup_info backup.spec) host_port password
                    u),
            )
            | inr changed ↦ inl (
              Records-same_info backup.spec backup.status.last_backup_info false changed,
              rw changed (delete_built-log env o u),
            )
          ])
