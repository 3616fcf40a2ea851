-- ===== src/Backup/OneShot/Pass.antt =====
-- A pass of Reconcile over a lawful store refines the abstract step.
use mathlib.Core.Path.{subst}
use redis_backup_operator.Base.{
  suc, ◌==◌, ◌≡◌, refl, inl, inr, sym, ap, ◌∙◌, Bool, true, false, not, Option, none, some, ◌∷◌,
  is_none, Bool-cases, Option-cases,
}
use redis_backup_operator.Types.Kubernetes.{NamespacedName, Job, job, Object}
use redis_backup_operator.Types.Backup.{RedisBackup, RedisBackupStatus}
use redis_backup_operator.Runtime.{
  World, Environment, Reply, GoError, Outcome, Result, done, failed, pure, requeued, returned, send,
  creates, updates_backup, or_panic, M, ◌>>=◌, >>=-call, >>=-returned, >>=-send,
}
use redis_backup_operator.Redis.{redis_conn}
use redis_backup_operator.Cronjob.{
  backup_metadata, backup_job_spec, make_cron_job, make_cron_job_on,
}
use redis_backup_operator.Backup.Steps.{
  create_owned, create_backup, sync_job_status, set_job_conditions,
}
use redis_backup_operator.Backup.Reconcile.Reads.{success}
use redis_backup_operator.Backup.Reconcile.{reconcile}
use redis_backup_operator.Backup.Reconcile.Counts.{object_requests}
use redis_backup_operator.Backup.OneShot.{View, pass_spec}
use redis_backup_operator.Backup.OneShot.Store.{Store, options_at, text_of}
use redis_backup_operator.Backup.OneShot.Reads.{
  b_of, backup_at, password, host_port, by_answer, reconcile-by_answer,
}
use redis_backup_operator.Backup.Master.{search_master-head}

module _ {S : Type 0} {env : Environment S} {req : NamespacedName} (store : Store env req) where
  -- The world is in the view.
  abbrev pub IsView : World S → View → Type 0
  IsView w v =
      (is_none (store.job_at w.cluster) ≡ not v.has_job)
      × (store.left_at w.cluster ≡ v.left)
      × ((store.status_at w.cluster).conditions ≡ v.history)
      × (object_requests w.log ≡ v.requests)

  -- A pass returns, with no error, in a world in the view.
  abbrev pub Ends : Outcome Result × World S → View → Type 0
  Ends r v = (r.0 ≡ returned done) × IsView r.1 v

  -- The Job that is built in the state
  abbrev built : S → Job
  built s = record {
    metadata = backup_metadata (backup_at store s);
    spec =
        backup_job_spec env.host.lookup_env store.metadata.name (store.claim_at s)
          (backup_at store s)
          (search_master-head (store.pods_at s) (store.claim_at s) (store.master s)).0;
  }

  builds :
      (s : S)
      → make_cron_job env.host.lookup_env store.metadata.name store.spec.backup_schedule ""
          (store.claim_at s)
          store.spec.cluster_name
          (backup_at store s)
          (store.pods_at s)
        ≡ some (job (built s))
  unfolding make_cron_job make_cron_job_on
  builds s = rw (
    make_cron_job,
    (search_master-head (store.pods_at s) (store.claim_at s) (store.master s)).1,
    make_cron_job_on,
    store.unscheduled,
  )

  -- The world after the creation of the Job
  abbrev created : World S → World S
  created w = record {
    cluster = (env.api.create (job (store.owned (built w.cluster))) w.cluster).1;
    log = creates (job (store.owned (built w.cluster))) ∷ w.log;
  }

  creates-job :
      (w : World S)
      → store.job_at w.cluster ≡ none
      → reconcile env req w ≡ (returned done, created w)
  unfolding create_backup create_owned
  creates-job w gone =
      let b = (backup_at store) w.cluster in
      let o = store.owned (built w.cluster) in
      let continue : Option GoError → M S Result =
        λ refused. elim refused [ some err ↦ pure (requeued err) | none ↦ pure done ] in
      let asks : Reply Object → M S Result = λ owned. elim (owned.error) [
        | some err ↦ pure (requeued err)
        | none ↦ send (creates owned.value) (env.api.create owned.value) >>= continue
      ] in
      let missing : by_answer store w.cluster store.missing w
          ≡ create_backup env b store.metadata.name "" (store.claim_at w.cluster)
              (store.pods_at w.cluster) (pure done) w =
        rw (store.missing_fails, store.missing_not_found) refl in
      reconcile-by_answer store w
      ∙ ap (λ o. by_answer store w.cluster (elim o [ none ↦ store.missing | some j ↦ success j ]) w)
          gone
      ∙ missing
      ∙ >>=-returned (or_panic _) (λ object. create_owned env b object (pure done)) w
          (ap (λ x. or_panic x w) (builds w.cluster))
      ∙ ap (λ owned. asks owned w) (store.set_owner b (built w.cluster))
      ∙ >>=-send (creates (job o)) (env.api.create (job o)) continue w
          (store.create_answers o w.cluster (store.owned_named (built w.cluster) store.named) gone)

  absent-Ends :
      (w : World S) (v : View)
      → store.job_at w.cluster ≡ none
      → IsView w v
      → Ends (reconcile env req w) (pass_spec env.host.unmarshal_conditions false v)
  absent-Ends w v gone (here, left, holds, sent) =
      let o = store.owned (built w.cluster) in
      subst (λ r. Ends r (pass_spec env.host.unmarshal_conditions false v))
        (sym (creates-job w gone))
        (
          refl,
          (
            store.create_stores o w.cluster (store.owned_named (built w.cluster) store.named) gone,
            store.create_left o w.cluster ∙ left,
            ap (λ st. st.conditions) (store.create_status o w.cluster) ∙ holds,
            ap suc sent,
          ),
        )

  set_job_conditions-Ends :
      (w : World S) (v : View)
      → IsView w v
      → Ends
          (set_job_conditions env (backup_at store w.cluster) v.left w)
          (pass_spec env.host.unmarshal_conditions true v)
  unfolding set_job_conditions
  set_job_conditions-Ends w v (here, left, holds, sent) = elim (Bool-cases (v.left == "")) [
    | inl empty ↦ rw (set_job_conditions, empty) (refl, (here, left, holds, sent))
    | inr full ↦
        let st : RedisBackupStatus = record (store.status_at w.cluster) {
          conditions = env.host.unmarshal_conditions v.left;
        } in
        let answer : Reply RedisBackup → M S Result =
          λ reply. elim (reply.error) [ some err ↦ pure (failed err) | none ↦ pure done ] in
        rw (set_job_conditions, full)
          (subst (λ r. Ends r (record v { history = env.host.unmarshal_conditions v.left }))
            (sym (
              >>=-send (updates_backup (b_of store st))
                (env.api.update_backup_status (b_of store st)) answer w
                (store.update_answers st w.cluster)))
            (
              refl,
              (
                ap is_none (store.update_job st w.cluster) ∙ here,
                store.update_left st w.cluster ∙ left,
                ap (λ t. t.conditions) (store.update_stores st w.cluster),
                sent,
              ),
            ))
  ]

  present-Ends :
      (w : World S) (v : View) (j : Job)
      → store.job_at w.cluster ≡ some j
      → v.has_job ≡ true
      → IsView w v
      → Ends (reconcile env req w) (pass_spec env.host.unmarshal_conditions true v)
  unfolding sync_job_status redis_conn
  present-Ends w v j stored there (here, left, holds, sent) =
      let b = (backup_at store) w.cluster in
      let (r, answers, says) = store.redis_get w.cluster in
      let reads : reconcile env req w
          ≡ sync_job_status env b j store.metadata.name (host_port store) (password store) w =
        reconcile-by_answer store w
        ∙ ap
            (λ o.
              by_answer store w.cluster (elim o [ none ↦ store.missing | some j ↦ success j ]) w)
            stored in
      let redis : redis_conn env store.metadata.name (host_port store) (password store) w
          ≡ (returned v.left, w) =
        >>=-call
          (env.redis.failover_get (options_at store.metadata store.spec store.secret)
            store.metadata.name)
          (λ reply. pure (text_of reply)) w answers
        ∙ ap (λ t. (returned t, w)) (says ∙ left) in
      let syncs : sync_job_status env b j store.metadata.name (host_port store) (password store) w
          ≡ set_job_conditions env b v.left w =
        rw (sync_job_status, store.stamped w.cluster j stored)
          (>>=-returned (redis_conn env store.metadata.name (host_port store) (password store))
            (set_job_conditions env b) w redis) in
      subst (λ r. Ends r (pass_spec env.host.unmarshal_conditions true v)) (sym (reads ∙ syncs))
        (set_job_conditions-Ends w v (here, left, holds, sent))

  -- A pass over a lawful store returns with no error, and takes the view where the abstract pass
  -- takes it.
  pub reconcile-Ends :
      (w : World S) (v : View)
      → IsView w v
      → Ends (reconcile env req w) (pass_spec env.host.unmarshal_conditions v.has_job v)
  reconcile-Ends w v h =
      let goal : Bool → Type 0 =
        λ b. Ends (reconcile env req w) (pass_spec env.host.unmarshal_conditions b v) in
      elim (Option-cases (store.job_at w.cluster)) [
        | inl gone ↦
            subst goal (sym (is_false v.has_job (sym h.0 ∙ ap is_none gone)))
              (absent-Ends w v gone h)
        | inr (j, stored) ↦
            let there = is_true v.has_job (sym h.0 ∙ ap is_none stored) in
            subst goal (sym there) (present-Ends w v j stored there h)
      ]
    where
      is_false : (b : Bool) → not b ≡ true → b ≡ false
      is_false true e = sym e
      is_false false e = refl

      is_true : (b : Bool) → not b ≡ false → b ≡ true
      is_true true e = refl
      is_true false e = sym e
