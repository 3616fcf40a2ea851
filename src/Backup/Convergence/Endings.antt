-- ===== src/Backup/Convergence/Endings.antt =====
-- The phase of a state of a lawful store, and how the steps that write end: recording the settings,
-- extending the history, deleting the CronJob, and creating it.
use mathlib.Core.Bool.{false≢true}
use mathlib.Core.Path.{subst}
use redis_backup_operator.Base.{
  none-ne-some, pos, String, ◌==◌, ◌≡◌, refl, ◌≢◌, inl, inr, sym, ap, ◌∙◌, true, false, Option,
  none, some, [], ◌∷◌, ◌++◌, get_elem?, Bool-cases, Option-cases, ==-eq-true,
}
use redis_backup_operator.Types.Kubernetes.{NamespacedName, CronJob, Object, cron_job}
use redis_backup_operator.Types.Backup.{
  RedisBackup, RedisBackupStatus, BackupCondition, LastBackupInfo,
}
use redis_backup_operator.Runtime.{
  FailoverOptions, FailoverReply, World, Environment, returned, done, pure, requeued, creates, send,
  GoError, Reply, failed, updates_backup, >>=-send, or_panic, ◌>>=◌, M, Outcome, Result,
}
use redis_backup_operator.Backup.{first_claim}
use redis_backup_operator.Backup.Steps.{
  backup_info, is_new, create_owned, record_info, append_condition, extend_history, sync_history,
  delete_built,
}
use redis_backup_operator.Redis.{redis_conn}
use redis_backup_operator.Base.Text.{lookup}
use redis_backup_operator.Backup.Reconcile.Settings.{IsRecorded, Records}
use redis_backup_operator.Backup.Convergence.{Phase}
use redis_backup_operator.Backup.Convergence.Store.{Store, IsNamed}

module _ {S : Type 0} {env : Environment S} {req : NamespacedName} (store : Store env req) where
  abbrev pub b_of : RedisBackupStatus → RedisBackup
  b_of st = record { metadata = store.metadata; spec = store.spec; status = st }

  abbrev pub info : LastBackupInfo
  info = backup_info store.spec

  -- The CronJob is there, with the label of the cluster, on the claim `old`.
  pub record IsPresent (s : S) (old : String) : Type 0 where
    pub c : CronJob
    pub stored : store.cron_job_at s ≡ some c
    pub names : IsNamed req c.metadata
    pub labelled :
        lookup "redis-sentinel-operator/cluster-name" c.metadata.labels
        ≡ some store.spec.cluster_name
    pub claims : first_claim c.spec.job_template.template ≡ some old

  -- The state is in the phase: whether the CronJob is there and on which claim, and whether the
  -- secret name, the URL and the schedule of the specification are the recorded ones.
  abbrev pub IsPhase : S → Phase → Type 0
  IsPhase s (none, recorded) =
      (store.cron_job_at s ≡ none)
      × Records store.spec (store.status_at s).last_backup_info recorded
  IsPhase s (some old, recorded) =
      IsPresent s old × Records store.spec (store.status_at s).last_backup_info recorded

module _ {S : Type 0} {env : Environment S} {req : NamespacedName} (store : Store env req)
    (m : String) where
  -- The pass returns, with no error, in a state of the phase, with the master on the claim `m`.
  abbrev pub Ends : Outcome Result × World S → Phase → Type 0
  Ends r p = (r.0 ≡ returned done) × (store.claim_at r.1.cluster ≡ m) × IsPhase store r.1.cluster p

  pub record_info-Ends :
      (st : RedisBackupStatus) (w : World S) (old : String)
      → store.claim_at w.cluster ≡ m
      → IsPresent store w.cluster old
      → Ends (record_info env (b_of store st) (info store) w) (some old, true)
  unfolding record_info
  record_info-Ends st w old on here =
      let st' : RedisBackupStatus = record st { last_backup_info = (info store) } in
      rw (record_info, store.update_answers st' w.cluster)
        (
          refl,
          store.update_claim st' w.cluster ∙ on,
          (
            record {
              c = here.c;
              stored = store.update_cron_job st' w.cluster ∙ here.stored;
              names = here.names;
              labelled = here.labelled;
              claims = here.claims;
            },
            subst (λ t. IsRecorded store.spec t.last_backup_info)
                (sym (store.update_stores st' w.cluster)) (refl, refl, refl),
          ),
        )

  append_condition-Ends :
      (st : RedisBackupStatus) (c : BackupCondition) (w : World S) (old : String)
      → store.claim_at w.cluster ≡ m
      → IsPresent store w.cluster old
      → Ends (append_condition env (b_of store st) (info store) c w) (some old, true)
  unfolding append_condition
  append_condition-Ends st c w old on here = elim (Bool-cases (is_new c st.conditions)) [
    | inr seen ↦ rw (append_condition, seen) (record_info-Ends st w old on here)
    | inl new ↦
        let st' : RedisBackupStatus = record st { conditions = st.conditions ++ c ∷ [] } in
        rw (append_condition, new)
          (subst (λ r. Ends r (some old, true))
            (sym (
              >>=-send (updates_backup (b_of store st'))
                (env.api.update_backup_status (b_of store st'))
                (λ reply. elim (reply.error) [
                  | some err ↦ pure (failed err)
                  | none ↦ record_info env reply.value (info store)
                ])
                w (store.update_answers st' w.cluster)))
            (record_info-Ends st' _ old (store.update_claim st' w.cluster ∙ on) (record {
              c = here.c;
              stored = store.update_cron_job st' w.cluster ∙ here.stored;
              names = here.names;
              labelled = here.labelled;
              claims = here.claims;
            })))
  ]

  -- A text that is not empty is decoded to a list with a first record.
  abbrev Decodes : String → Type 0
  Decodes res =
      res ≢ "" → (c : BackupCondition) × (get_elem? (env.host.unmarshal_conditions res) 0 ≡ some c)

  extend_history-Ends :
      (st : RedisBackupStatus) (res : String) (w : World S) (old : String)
      → Decodes res
      → store.claim_at w.cluster ≡ m
      → IsPresent store w.cluster old
      → Ends (extend_history env (b_of store st) (info store) res w) (some old, true)
  unfolding extend_history
  extend_history-Ends st res w old decodes on here = elim (Bool-cases (res == "")) [
    | inl empty ↦ rw (extend_history, empty) (record_info-Ends st w old on here)
    | inr full ↦
        let (c, decoded) = decodes (λ e. false≢true (sym full ∙ ==-eq-true res "" e)) in
        rw (extend_history, full, or_panic, decoded) (append_condition-Ends st c w old on here)
  ]

  decodes :
      (reply : FailoverReply)
      → Decodes reply.val
      → Decodes (elim (reply.close_error) [ none ↦ reply.val | some err ↦ "" ])
  decodes reply h = elim (Option-cases (reply.close_error)) [
    | inl fine ↦ rw fine h
    | inr (err, fails) ↦ rw fails (λ full. absurd (full refl))
  ]

  pub sync_history-Ends :
      (st : RedisBackupStatus) (host pass : String) (w : World S) (old : String)
      → store.claim_at w.cluster ≡ m
      → IsPresent store w.cluster old
      → Ends (sync_history env (b_of store st) (info store) host pass w) (some old, true)
  unfolding sync_history redis_conn
  sync_history-Ends st host pass w old on here =
      let options : FailoverOptions = record {
        master_name = "mymaster";
        sentinel_addrs = host ∷ [];
        db = pos 15;
        password = pass;
      } in
      extend_history-Ends st _ _ old (decodes _ (store.records options "backupCronjob" w.cluster))
        (ap store.claim_at (store.redis_get _ _ w.cluster) ∙ on)
        (record {
          c = here.c;
          stored = ap store.cron_job_at (store.redis_get _ _ w.cluster) ∙ here.stored;
          names = here.names;
          labelled = here.labelled;
          claims = here.claims;
        })

  pub delete_built-Ends :
      (c : CronJob) (w : World S) (old : String)
      → IsNamed req c.metadata
      → store.claim_at w.cluster ≡ m
      → IsPhase store w.cluster (some old, false)
      → Ends (delete_built env (cron_job c) w) (none, false)
  unfolding delete_built
  delete_built-Ends c w old named on (here, changed) =
      rw
        (
          delete_built,
          store.delete_answers c w.cluster named (λ e. none-ne-some here.c (sym e ∙ here.stored)),
        )
        (
          refl,
          store.delete_claim c w.cluster ∙ on,
          (
            store.delete_stores c w.cluster named,
            subst (λ t. ¬ IsRecorded store.spec t.last_backup_info)
                (sym (store.delete_status c w.cluster)) changed,
          ),
        )

  pub create_owned-Ends :
      (st : RedisBackupStatus) (c : CronJob) (w : World S) (claim : String)
      → IsNamed req c.metadata
      → lookup "redis-sentinel-operator/cluster-name" c.metadata.labels
        ≡ some store.spec.cluster_name
      → first_claim c.spec.job_template.template ≡ some claim
      → store.claim_at w.cluster ≡ m
      → store.cron_job_at w.cluster ≡ none
      → Ends
          (create_owned env
            (b_of store st)
            (cron_job c)
            (record_info env (b_of store st) (info store))
            w)
          (some claim, true)
  unfolding create_owned
  create_owned-Ends st c w claim named labelled claims on absent =
      let o = store.owned c in
      let continue : Option GoError → M S Result = λ refused. elim refused [
        | some err ↦ pure (requeued err)
        | none ↦ record_info env (b_of store st) (info store)
      ] in
      let asks : Reply Object → M S Result = λ owned. elim (owned.error) [
        | some err ↦ pure (requeued err)
        | none ↦ send (creates owned.value) (env.api.create owned.value) >>= continue
      ] in
      let granted =
        >>=-send (creates (cron_job o)) (env.api.create (cron_job o)) continue w
          (store.create_answers o w.cluster (store.owned_named c named) absent) in
      subst (λ r. Ends r (some claim, true))
        (sym (ap (λ owned. asks owned w) (store.set_owner (b_of store st) c) ∙ granted))
        (record_info-Ends st _ claim (store.create_claim o w.cluster ∙ on) (record {
          c = o;
          stored = store.create_stores o w.cluster (store.owned_named c named) absent;
          names = store.owned_named c named;
          labelled =
              ap (lookup "redis-sentinel-operator/cluster-name") (store.owned_labels c) ∙ labelled;
          claims =
              ap (λ spec. first_claim spec.job_template.template) (store.owned_spec c) ∙ claims;
        }))
