-- ===== src/Backup/CycleSync/Deletes.antt =====
-- When the periodic check deletes a CronJob.
use mathlib.Core.Path.{sym, ◌∙◌, ap, subst}
use mathlib.Core.Bool.{false≢true}
use redis_backup_operator.Base.{
  String, ◌==◌, ◌≡◌, refl, ◌≢◌, ◌⊎◌, inl, inr, none, some, List, [], ◌∷◌, arith, get_elem?,
  Bool-cases, Option-cases, eq_iff, ==-eq-true, ==-eq-false,
}
use redis_backup_operator.Types.Kubernetes.{NamespacedName, Pod, CronJob, cron_job}
use redis_backup_operator.Types.Backup.{RedisBackup}
use redis_backup_operator.Runtime.{World, Reply, GoError, Event, deletes, Environment}
use redis_backup_operator.Cronjob.{sentinel_name_label}
use redis_backup_operator.Backup.{
  search_master, found, not_running, no_master, broken, first_claim, pod_labels, MasterSearch,
}
use redis_backup_operator.Backup.CycleSync.{check_claim, check_cron_jobs, check_pods, cycle_sync}

-- The first CronJob of the list, with a claim that is not the wanted one.
pub record IsStale (wanted : String) (targets : List CronJob) (t : CronJob) : Type 0 where
  pub first : get_elem? targets 0 ≡ some t
  pub old : String
  pub claimed : first_claim t.spec.job_template.template ≡ some old
  pub differs : wanted ≢ old

module _ {S : Type 0} (env : Environment S) where
  check_claim-stale :
      (wanted : String) (targets : List CronJob) (t : CronJob) (w : World S)
      → IsStale wanted targets t
      → (check_claim env wanted targets w).1.log ≡ deletes (cron_job t) ∷ w.log
  unfolding check_claim
  check_claim-stale wanted [] t w h = absurd (none-some t h.first)
    where
      none-some : (t : CronJob) → none ≡ some t → ⊥
      none-some t e = cc
  check_claim-stale wanted (target ∷ targets) t w h =
      ground (arith, eq_iff wanted h.old, h.first, h.claimed, h.differs)

  check_claim-log :
      (wanted : String) (targets : List CronJob) (w : World S)
      → ((check_claim env wanted targets w).1.log ≡ w.log)
        ⊎ ((t : CronJob) × IsStale wanted targets t
            × ((check_claim env wanted targets w).1.log ≡ deletes (cron_job t) ∷ w.log))
  unfolding check_claim
  check_claim-log wanted [] w = inl refl
  check_claim-log wanted (t ∷ targets) w =
      elim (Option-cases (first_claim t.spec.job_template.template)) [
        | inl absent ↦ inl (ground arith)
        | inr (old, claimed) ↦ elim (Bool-cases (wanted == old)) [
          | inl same ↦ inl (ground arith)
          | inr other ↦ inr (
            t,
            record {
              first = refl;
              old = old;
              claimed = claimed;
              differs = λ e. false≢true (sym other ∙ ==-eq-true wanted old e);
            },
            ground arith,
          )
        ]
      ]

  pub check_pods-found :
      (cluster_name namespace : String) (pods : List Pod) (claim : String) (w : World S)
      → search_master pods ≡ found claim
      → claim ≢ ""
      → check_pods env cluster_name namespace pods w
        ≡ check_cron_jobs env cluster_name namespace claim w
  unfolding check_pods search_master
  check_pods-found cluster_name namespace [] claim w hit full = absurd (absent claim hit)
    where
      absent : (c : String) → no_master ≡ found c → ⊥
      absent c e = cc
  check_pods-found cluster_name namespace (p ∷ pods) claim w hit full =
      rw (check_pods, hit, ==-eq-false claim "" full)

  module _ (namespace name : String) (w : World S) where
    abbrev pub key : NamespacedName
    key = record { namespace = namespace; name = name }

    -- The answer to the read of the resource, and the state after it
    abbrev pub got : Reply RedisBackup × S
    got = env.api.get_redis_backup key w.cluster

    abbrev pub cluster_name : String
    cluster_name = (got.0).value.spec.cluster_name

    -- The answer to the list of pods
    abbrev pub listed : Reply (List Pod) × S
    listed = env.api.list_pods (pod_labels "redis" cluster_name) got.1

    -- The answer to the list of CronJobs
    abbrev pub targets : Reply (List CronJob) × S
    targets = env.api.list_cron_jobs ((sentinel_name_label, cluster_name) ∷ []) namespace listed.1

    -- The claim that the check compares with: that of the running master, or the empty one where
    -- the pods could not be listed.
    abbrev pub Wants : String → Type 0
    Wants claim =
        (((listed.0).error ≡ none) × (search_master (listed.0).value ≡ found claim) × (claim ≢ ""))
        ⊎ ((e : GoError) × ((listed.0).error ≡ some e) × (claim ≡ ""))

    -- `t` is the first CronJob listed for the cluster of the resource, and its claim is not the
    -- one that the check compares with.
    pub record IsCondemned (t : CronJob) : Type 0 where
      pub read : (got.0).error ≡ none
      pub claim : String
      pub wanted : Wants claim
      pub answered : (targets.0).error ≡ none
      pub stale : IsStale claim (targets.0).value t

    -- The world after the two reads, with nothing sent
    abbrev after_reads : World S
    after_reads = record { cluster = listed.1; log = w.log }

    abbrev Ends : List Event → Type 0
    Ends log =
        (log ≡ w.log) ⊎ ((t : CronJob) × IsCondemned t × (log ≡ deletes (cron_job t) ∷ w.log))

    check_cron_jobs-Ends :
        (claim : String)
        → (got.0).error ≡ none
        → Wants claim
        → Ends (check_cron_jobs env cluster_name namespace claim after_reads).1.log
    unfolding check_cron_jobs
    check_cron_jobs-Ends claim read wanted = elim (Option-cases (targets.0).error) [
      | inr (err, fails) ↦ inl (ground arith)
      | inl answered ↦
          elim (check_claim-log claim (targets.0).value
            (record { cluster = targets.1; log = w.log })) [
              | inl same ↦ inl (rw answered same)
              | inr (t, stale, sent) ↦ inr (
                t,
                record {
                  read = read;
                  claim = claim;
                  wanted = wanted;
                  answered = answered;
                  stale = stale;
                },
                rw answered sent,
              )
            ]
    ]

    module _ (read : (got.0).error ≡ none) (fine : (listed.0).error ≡ none) (p : Pod)
        (pods : List Pod) (e : (listed.0).value ≡ p ∷ pods) where
      search-Ends :
          (m : MasterSearch)
          → search_master (p ∷ pods) ≡ m
          → Ends (check_pods env cluster_name namespace (p ∷ pods) after_reads).1.log
      unfolding check_pods
      search-Ends (found claim) hit = elim (Bool-cases (claim == "")) [
        | inl empty ↦ inl (ground arith)
        | inr full ↦
            let wanted : Wants claim = inl (
              fine,
              ap search_master e ∙ hit,
              λ same. false≢true (sym full ∙ ==-eq-true claim "" same),
            ) in
            rw (check_pods, hit, full) (check_cron_jobs-Ends claim read wanted)
      ]
      search-Ends not_running hit = inl (ground arith)
      search-Ends no_master hit = inl (ground arith)
      search-Ends broken hit = inl (ground arith)

    check_pods-Ends :
        (got.0).error ≡ none
        → (listed.0).error ≡ none
        → (pods : List Pod) → (listed.0).value ≡ pods
        → Ends (check_pods env cluster_name namespace pods after_reads).1.log
    unfolding check_pods
    check_pods-Ends read fine [] e = inl refl
    check_pods-Ends read fine (p ∷ pods) e = search-Ends read fine p pods e _ refl

    -- Whatever the cluster answers, the periodic check sends nothing, or it deletes one CronJob:
    -- the first one listed for the cluster of the resource, if its claim is not that of the
    -- running master, or, where the pods could not be listed, if its claim is not empty.
    pub cycle_sync-log :
        ((cycle_sync env namespace name w).1.log ≡ w.log)
        ⊎ ((t : CronJob) × IsCondemned t
            × ((cycle_sync env namespace name w).1.log ≡ deletes (cron_job t) ∷ w.log))
    unfolding cycle_sync
    cycle_sync-log = elim (Option-cases (got.0).error) [
      | inr (err, fails) ↦ inl (ground arith)
      | inl read ↦ elim (Option-cases (listed.0).error) [
        | inl fine ↦ rw (read, fine) (check_pods-Ends read fine (listed.0).value refl)
        | inr (err, fails) ↦
            rw (read, fails) (check_cron_jobs-Ends "" read (inr (err, fails, refl)))
      ]
    ]

    check_cron_jobs-stale :
        (claim : String) (t : CronJob)
        → (targets.0).error ≡ none
        → IsStale claim (targets.0).value t
        → (check_cron_jobs env cluster_name namespace claim after_reads).1.log
          ≡ deletes (cron_job t) ∷ w.log
    unfolding check_cron_jobs
    check_cron_jobs-stale claim t answered stale = rw answered (
        check_claim-stale claim (targets.0).value t (record { cluster = targets.1; log = w.log })
          stale)

    -- The periodic check deletes the first CronJob listed for the cluster of the resource, where
    -- the reads of the resource and of the CronJobs succeed, and its claim is not that of the
    -- running master, which is not empty, or the pods could not be listed and its claim is not
    -- empty.
    pub cycle_sync-deletes :
        (t : CronJob)
        → IsCondemned t
        → (cycle_sync env namespace name w).1.log ≡ deletes (cron_job t) ∷ w.log
    unfolding cycle_sync
    cycle_sync-deletes t c = elim (c.wanted) [
      | inl (fine, hit, full) ↦
          rw
            (
              c.read,
              fine,
              check_pods-found cluster_name namespace (listed.0).value c.claim after_reads hit full,
            )
            (check_cron_jobs-stale c.claim t c.answered c.stale)
      | inr (err, fails, empty) ↦
          rw (c.read, fails)
            (check_cron_jobs-stale "" t c.answered
              (subst (λ claim. IsStale claim (targets.0).value t) empty c.stale))
    ]
