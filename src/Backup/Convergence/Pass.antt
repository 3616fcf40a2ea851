-- ===== src/Backup/Convergence/Pass.antt =====
-- A pass of Reconcile over a lawful store refines the abstract step.
use mathlib.Core.Path.{subst}
use redis_backup_operator.Base.{
  String, ◌==◌, ◌≡◌, refl, sym, ap, ◌∙◌, Bool, true, false, none, some, if◌then◌else◌, ==-eq-false,
}
use redis_backup_operator.Types.Kubernetes.{NamespacedName, CronJob, cron_job}
use redis_backup_operator.Runtime.{
  World, Environment, Reply, pure, requeued, or_panic, M, >>=-call, >>=-returned, Result,
}
use redis_backup_operator.Cronjob.{
  backup_metadata, backup_job_spec, backup_cron_job_spec, make_cron_job, make_cron_job_on,
  cron_job_version_v1beta1,
}
use redis_backup_operator.Backup.Master.{search_master-head}
use redis_backup_operator.Backup.{first_claim}
use redis_backup_operator.Base.Text.{lookup}
use redis_backup_operator.Backup.Reconcile.Settings.{same_info-Records}
use redis_backup_operator.Backup.Steps.{create_owned, create_backup, record_info}
use redis_backup_operator.Backup.Reconcile.{
  reconcile_version, sync_cron_job, sync_v1, sync_v1beta1, get_by_version, reconcile,
}
use redis_backup_operator.Backup.Convergence.{Phase, pass_spec}
use redis_backup_operator.Backup.Convergence.Store.{Store}
use redis_backup_operator.Backup.Reconcile.Reads.{success}
use redis_backup_operator.Backup.Convergence.Endings.{
  info, IsPhase, Ends, sync_history-Ends, delete_built-Ends, create_owned-Ends,
}
use redis_backup_operator.Backup.Convergence.Reads.{
  backup_at, version, password, host_port, reconcile-version,
}

module _ {S : Type 0} {env : Environment S} {req : NamespacedName} (store : Store env req) where
  -- The CronJob that is built in the state
  abbrev built : S → CronJob
  built s =
      let b = backup_at store s in
      record {
        metadata = backup_metadata b;
        spec = backup_cron_job_spec b (
            backup_job_spec env.host.lookup_env "backupCronjob" (store.claim_at s) b
              (search_master-head (store.pods_at s) (store.claim_at s) (store.master s)).0);
      }

  builds :
      (s : S)
      → make_cron_job env.host.lookup_env "backupCronjob" store.spec.backup_schedule
          (version store)
          (store.claim_at s)
          store.spec.cluster_name
          (backup_at store s)
          (store.pods_at s)
        ≡ some (cron_job (built s))
  unfolding make_cron_job make_cron_job_on
  builds s = rw (
    make_cron_job,
    (search_master-head (store.pods_at s) (store.claim_at s) (store.master s)).1,
    make_cron_job_on,
    ==-eq-false store.spec.backup_schedule "" store.scheduled,
    store.stable,
  )

  built-claims :
      (s : S) → first_claim (built s).spec.job_template.template ≡ some (store.claim_at s)
  unfolding first_claim backup_cron_job_spec backup_job_spec
  built-claims s = refl

  built-labelled :
      (s : S)
      → lookup "redis-sentinel-operator/cluster-name" (built s).metadata.labels
        ≡ some store.spec.cluster_name
  unfolding lookup
  built-labelled s = refl

  -- The look-up of the CronJob, in the version that is served
  looks_up :
      (s : S)
      → get_by_version env
          (version store)
          (record { namespace = req.namespace; name = store.metadata.name })
          s
        ≡ (elim (store.cron_job_at s) [ none ↦ store.missing | some c ↦ success c ], s)
  unfolding get_by_version
  looks_up s = rw (get_by_version, store.stable) (store.get_cron_job s)

  -- What follows the look-up
  abbrev by_answer : S → Reply CronJob → M S Result
  by_answer s got =
      let b = backup_at store s in
      elim (got.error) [
        | some err ↦
            if err.is_not_found
            then create_backup env b "backupCronjob" (version store) (store.claim_at s)
                (store.pods_at s) (record_info env b (info store))
            else pure (requeued err)
        | none ↦
            sync_cron_job env b (info store) (version store) req.namespace (store.claim_at s)
              (host_port store) (password store) (store.pods_at s)
      ]

  reconcile-by_answer :
      (w : World S)
      → reconcile env req w
        ≡ by_answer w.cluster
            (elim (store.cron_job_at w.cluster) [ none ↦ store.missing | some c ↦ success c ])
            w
  unfolding reconcile_version
  reconcile-by_answer w =
      reconcile-version store w
      ∙ >>=-call
          (get_by_version env (version store)
            (record { namespace = req.namespace; name = store.metadata.name }))
          (by_answer w.cluster) w (looks_up w.cluster)

  absent-Ends :
      (w : World S) (recorded : Bool)
      → IsPhase store w.cluster (none, recorded)
      → Ends store
          (store.claim_at w.cluster)
          (reconcile env req w)
          (some (store.claim_at w.cluster), true)
  unfolding create_backup
  absent-Ends w recorded (gone, _) =
      let b = backup_at store w.cluster in
      let missing : by_answer w.cluster store.missing w
          ≡ create_backup env b "backupCronjob" (version store) (store.claim_at w.cluster)
              (store.pods_at w.cluster) (record_info env b (info store)) w =
        rw (by_answer, store.missing_fails, store.missing_not_found) refl in
      let creates_it =
        >>=-returned (or_panic _)
          (λ object. create_owned env b object (record_info env b (info store))) w
          (ap (λ x. or_panic x w) (builds w.cluster)) in
      subst (λ r. Ends store (store.claim_at w.cluster) r (some (store.claim_at w.cluster), true))
        (sym (
          reconcile-by_answer w
          ∙ ap (λ o. by_answer w.cluster (elim o [ none ↦ store.missing | some c ↦ success c ]) w)
              gone
          ∙ missing
          ∙ creates_it))
        (create_owned-Ends store (store.claim_at w.cluster) (store.status_at w.cluster)
          (built w.cluster) w (store.claim_at w.cluster) store.named (built-labelled w.cluster)
          (built-claims w.cluster) refl gone)

  reconcile-present :
      (w : World S) (c : CronJob)
      → store.cron_job_at w.cluster ≡ some c
      → reconcile env req w
        ≡ sync_v1 env
            (backup_at store w.cluster)
            (info store)
            (cron_job (built w.cluster))
            (host_port store)
            (password store)
            w
  unfolding sync_cron_job
  reconcile-present w c stored =
      let b = backup_at store w.cluster in
      reconcile-by_answer w
      ∙ ap (λ o. by_answer w.cluster (elim o [ none ↦ store.missing | some c ↦ success c ]) w)
          stored
      ∙ >>=-returned (or_panic _)
          (λ object.
            if (version store) == cron_job_version_v1beta1
            then sync_v1beta1 env b (info store) object req.namespace (store.claim_at w.cluster)
                (host_port store) (password store)
            else sync_v1 env b (info store) object (host_port store) (password store))
          w (ap (λ x. or_panic x w) (builds w.cluster))
      ∙ rw (store.stable) refl

  present-Ends :
      (w : World S) (old : String) (recorded : Bool)
      → IsPhase store w.cluster (some old, recorded)
      → Ends store
          (store.claim_at w.cluster)
          (reconcile env req w)
          (pass_spec (store.claim_at w.cluster) (some old, recorded))
  unfolding sync_v1
  present-Ends w old true (here, same) =
      subst (λ r. Ends store (store.claim_at w.cluster) r (some old, true))
        (sym (reconcile-present w here.c here.stored))
        (rw (sync_v1, same_info-Records store.spec _ true same)
          (sync_history-Ends store (store.claim_at w.cluster) (store.status_at w.cluster)
            (host_port store) (password store) w old refl here))
  present-Ends w old false (here, same) =
      subst (λ r. Ends store (store.claim_at w.cluster) r (none, false))
        (sym (reconcile-present w here.c here.stored))
        (rw (sync_v1, same_info-Records store.spec _ false same)
          (delete_built-Ends store (store.claim_at w.cluster) (built w.cluster) w old store.named
            refl (here, same)))

  -- A pass over a lawful store returns with no error, and takes the phase where the abstract pass
  -- takes it.
  pub reconcile-Ends :
      (w : World S) (p : Phase)
      → IsPhase store w.cluster p
      → Ends store
          (store.claim_at w.cluster)
          (reconcile env req w)
          (pass_spec (store.claim_at w.cluster) p)
  reconcile-Ends w (none, recorded) h = absent-Ends w recorded h
  reconcile-Ends w (some old, recorded) h = present-Ends w old recorded h
