-- ===== src/Backup/Convergence/Check.antt =====
-- A run of CycleSync over a lawful store refines the abstract check.
use mathlib.Core.Path.{subst}
use redis_backup_operator.Base.{
  none-ne-some, String, ◌==◌, ◌≡◌, refl, inl, inr, sym, ap, ◌∙◌, Option, none, some, [], ◌∷◌,
  eq_refl, true, false, if◌then◌else◌, Bool-cases,
}
use redis_backup_operator.Types.Kubernetes.{NamespacedName, CronJob, cron_job}
use redis_backup_operator.Runtime.{
  World, M, Environment, GoError, Outcome, returned, pure, call, send, deletes, or_panic, ◌>>=◌,
  >>=-call, >>=-returned,
}
use redis_backup_operator.Base.Text.{lookup}
use redis_backup_operator.Backup.{pod_labels}
use redis_backup_operator.Backup.Reconcile.Settings.{Records}
use redis_backup_operator.Backup.CycleSync.{check_claim, check_cron_jobs, check_pods, cycle_sync}
use redis_backup_operator.Backup.CycleSync.Deletes.{check_pods-found}
use redis_backup_operator.Backup.Convergence.{Phase, check_spec}
use redis_backup_operator.Backup.Convergence.Store.{Store, cron_job_list, is_labelled, selected}
use redis_backup_operator.Backup.Convergence.Endings.{IsPhase}

selected-labelled :
    (cluster_name : String) (c : CronJob)
    → lookup "redis-sentinel-operator/cluster-name" c.metadata.labels ≡ some cluster_name
    → selected cluster_name (cron_job_list (some c)) ≡ c ∷ []
selected-labelled cluster_name c labelled =
    let answers : is_labelled cluster_name c ≡ true =
      ap (λ o. elim o [ none ↦ false | some value ↦ value == cluster_name ]) labelled
      ∙ eq_refl cluster_name in
    ap (λ b. if b then c ∷ [] else []) answers

module _ {S : Type 0} {env : Environment S} {req : NamespacedName} (store : Store env req) where
  -- The check returns, with no error, in a state of the phase, with the master on the claim `m`.
  abbrev pub Checks : String → Outcome (Option GoError) × World S → Phase → Type 0
  Checks m r p =
      (r.0 ≡ returned none) × (store.claim_at r.1.cluster ≡ m) × IsPhase store r.1.cluster p

  check_claim-Checks :
      (w : World S) (p : Phase)
      → IsPhase store w.cluster p
      → Checks
          (store.claim_at w.cluster)
          (check_claim env
            (store.claim_at w.cluster)
            (selected store.spec.cluster_name (cron_job_list (store.cron_job_at w.cluster)))
            w)
          (check_spec (store.claim_at w.cluster) p)
  unfolding check_claim
  check_claim-Checks w (none, recorded) (gone, same) =
      subst
        (λ o.
          Checks (store.claim_at w.cluster)
            (check_claim env (store.claim_at w.cluster)
              (selected store.spec.cluster_name (cron_job_list o)) w)
            (none, recorded))
        (sym gone) (refl, refl, (gone, same))
  check_claim-Checks w (some old, recorded) (here, same) =
      let c = here.c in
      let continue : String → M S (Option GoError) = λ found_claim.
        if (store.claim_at w.cluster) == found_claim
        then pure none
        else send (deletes (cron_job c)) (env.api.delete (cron_job c)) in
      let reads : check_claim env (store.claim_at w.cluster)
            (selected store.spec.cluster_name (cron_job_list (store.cron_job_at w.cluster))) w
          ≡ continue old w =
        ap
          (λ o.
            check_claim env (store.claim_at w.cluster)
              (selected store.spec.cluster_name (cron_job_list o)) w)
          here.stored
        ∙ ap (λ cs. check_claim env (store.claim_at w.cluster) cs w)
            (selected-labelled store.spec.cluster_name c here.labelled)
        ∙ >>=-returned (or_panic _) continue w (ap (λ x. or_panic x w) here.claims) in
      subst
        (λ r.
          Checks (store.claim_at w.cluster) r
            (check_spec (store.claim_at w.cluster) (some old, recorded)))
        (sym reads)
        (elim (Bool-cases ((store.claim_at w.cluster) == old)) [
          | inl right ↦ rw right (refl, refl, (here, same))
          | inr wrong ↦ rw wrong (
            ap returned (
                store.delete_answers c w.cluster here.names
                  (λ e. none-ne-some c (sym e ∙ here.stored))),
            store.delete_claim c w.cluster,
            (
              store.delete_stores c w.cluster here.names,
              subst (λ t. Records store.spec t.last_backup_info recorded)
                  (sym (store.delete_status c w.cluster)) same,
            ),
          )
        ])

  check_cron_jobs-reads :
      (w : World S)
      → check_cron_jobs env store.spec.cluster_name req.namespace (store.claim_at w.cluster) w
        ≡ check_claim env
            (store.claim_at w.cluster)
            (selected store.spec.cluster_name (cron_job_list (store.cron_job_at w.cluster)))
            w
  unfolding check_cron_jobs
  check_cron_jobs-reads w =
      >>=-call (env.api.list_cron_jobs _ _)
        (λ targets. elim (targets.error) [
          | some err ↦ pure (some err)
          | none ↦ check_claim env (store.claim_at w.cluster) targets.value
        ])
        w (store.list_cron_jobs w.cluster)

  cycle_sync-reads :
      (w : World S)
      → cycle_sync env req.namespace req.name w
        ≡ check_pods env store.spec.cluster_name req.namespace (store.pods_at w.cluster) w
  unfolding cycle_sync
  cycle_sync-reads w =
      >>=-call (env.api.get_redis_backup _)
        (λ got. elim (got.error) [
          | some err ↦ pure none
          | none ↦
              call (env.api.list_pods (pod_labels "redis" got.value.spec.cluster_name)) >>= λ pods.
              elim (pods.error) [
                | some err ↦ check_cron_jobs env got.value.spec.cluster_name req.namespace ""
                | none ↦ check_pods env got.value.spec.cluster_name req.namespace pods.value
              ]
        ])
        w (store.get_backup w.cluster)
      ∙ >>=-call (env.api.list_pods _)
          (λ pods. elim (pods.error) [
            | some err ↦ check_cron_jobs env store.spec.cluster_name req.namespace ""
            | none ↦ check_pods env store.spec.cluster_name req.namespace pods.value
          ])
          w (store.list_pods w.cluster)

  -- A periodic check of a lawful store returns with no error, and takes the phase where the
  -- abstract check takes it.
  pub cycle_sync-Checks :
      (w : World S) (p : Phase)
      → IsPhase store w.cluster p
      → Checks
          (store.claim_at w.cluster)
          (cycle_sync env req.namespace req.name w)
          (check_spec (store.claim_at w.cluster) p)
  cycle_sync-Checks w p h =
      subst (λ r. Checks (store.claim_at w.cluster) r (check_spec (store.claim_at w.cluster) p))
        (sym (
          cycle_sync-reads w
          ∙ check_pods-found env store.spec.cluster_name req.namespace (store.pods_at w.cluster)
              (store.claim_at w.cluster) w (store.master w.cluster) (store.claimed w.cluster)
          ∙ check_cron_jobs-reads w))
        (check_claim-Checks w p h)
