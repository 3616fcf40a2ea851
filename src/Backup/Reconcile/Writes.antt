-- ===== src/Backup/Reconcile/Writes.antt =====
-- What one pass of the reconciler of RedisBackup sends, whatever the cluster answers.
use redis_backup_operator.Base.{
  String, ◌==◌, ◌≡◌, refl, ◌≢◌, ◌⊎◌, inl, inr, true, none, some, List, [], ◌∷◌, ◌++◌, arith,
  get_elem?, is_none, Bool-cases, Option-cases,
}
use redis_backup_operator.Types.Kubernetes.{Pod, Job, Object}
use redis_backup_operator.Types.Backup.{
  RedisBackup, RedisBackupSpec, LastBackupInfo, BackupCondition,
}
use redis_backup_operator.Runtime.{
  World, Event, creates, deletes, updates_backup, Environment, or_panic,
}
use redis_backup_operator.Redis.{redis_conn}
use redis_backup_operator.Cronjob.{make_cron_job}
use redis_backup_operator.Backup.{found, search_master}
use redis_backup_operator.Backup.Steps.{
  is_new, with_conditions, with_info, sync_job_status, record_info, append_condition,
  extend_history, set_job_conditions, sync_history, delete_built,
}

-- The secret name, the URL and the schedule
abbrev pub settings_of : RedisBackupSpec → LastBackupInfo
settings_of spec = record {
  backup_secret_name = spec.backup_secret_name;
  backup_url = spec.backup_url;
  backup_schedule = spec.backup_schedule;
}

-- The resource with the settings recorded in its status, and with another history
abbrev recording : RedisBackup → LastBackupInfo → RedisBackup
recording backup info = record backup {
  status = record (backup.status) { last_backup_info = info };
}

abbrev with_history : RedisBackup → List BackupCondition → RedisBackup
with_history backup cs = record backup { status = record (backup.status) { conditions = cs } }

abbrev extended : RedisBackup → BackupCondition → RedisBackup
extended backup c = with_history backup (backup.status.conditions ++ c ∷ [])

-- The status updates of a pass that keeps the CronJob: none, the settings, a new record at the end
-- of the history, or first the record and then, in what
-- the server answered to that update, the settings.
pub data HistoryTrace {S : Type 0} (env : Environment S) (backup : RedisBackup)
    (info : LastBackupInfo) (before after : List Event) : Type 0 where
  unchanged : after ≡ before → HistoryTrace env backup info before after
  recorded :
      after ≡ updates_backup (recording backup info) ∷ before
      → HistoryTrace env backup info before after
  appended :
      (c : BackupCondition)
      → is_new c backup.status.conditions ≡ true
      → after ≡ updates_backup (extended backup c) ∷ before
      → HistoryTrace env backup info before after
  appended_recorded :
      (c : BackupCondition) (s : S)
      → is_new c backup.status.conditions ≡ true
      → (env.api.update_backup_status (extended backup c) s).0.error ≡ none
      → after
        ≡ updates_backup
            (recording (env.api.update_backup_status (extended backup c) s).0.value info)
          ∷ updates_backup (extended backup c)
          ∷ before
      → HistoryTrace env backup info before after

-- The object that MakeCronJob builds for the pass.
pub record IsBuilt {S : Type 0} (env : Environment S) (backup : RedisBackup) (backup_pvc : String)
    (pods : List Pod) (object : Object) : Type 0 where
  pub key : String
  pub version : String
  pub built :
      make_cron_job env.host.lookup_env key backup.spec.backup_schedule version backup_pvc
        backup.spec.cluster_name backup pods
      ≡ some object

-- The requests of a pass over the pods of the cluster.
pub data PassTrace {S : Type 0} (env : Environment S) (backup : RedisBackup) (pods : List Pod)
    (before after : List Event) : Type 0 where
  idle : after ≡ before → PassTrace env backup pods before after
  creates_object :
      (pvc : String) (o : Object)
      → search_master pods ≡ found pvc
      → IsBuilt env backup pvc pods o
      → after ≡ creates (env.api.set_controller_reference backup o).value ∷ before
      → PassTrace env backup pods before after
  creates_recorded :
      (pvc : String) (o : Object)
      → search_master pods ≡ found pvc
      → backup.spec.backup_schedule ≢ ""
      → IsBuilt env backup pvc pods o
      → after
        ≡ updates_backup (recording backup (settings_of backup.spec))
          ∷ creates (env.api.set_controller_reference backup o).value
          ∷ before
      → PassTrace env backup pods before after
  sets_conditions :
      (cs : List BackupCondition)
      → backup.spec.backup_schedule ≡ ""
      → after ≡ updates_backup (with_history backup cs) ∷ before
      → PassTrace env backup pods before after
  deletes_object :
      (pvc : String) (o : Object)
      → search_master pods ≡ found pvc
      → backup.spec.backup_schedule ≢ ""
      → IsBuilt env backup pvc pods o
      → after ≡ deletes o ∷ before
      → PassTrace env backup pods before after
  history :
      backup.spec.backup_schedule ≢ ""
      → HistoryTrace env backup (settings_of backup.spec) before after
      → PassTrace env backup pods before after

module _ {S : Type 0} (env : Environment S) where
  pub record_info-log :
      (backup : RedisBackup) (info : LastBackupInfo) (w : World S)
      → (record_info env backup info w).1.log ≡ updates_backup (with_info backup info) ∷ w.log
  unfolding record_info
  record_info-log backup info w = ground arith

  pub delete_built-log :
      (o : Object) (w : World S) → (delete_built env o w).1.log ≡ deletes o ∷ w.log
  unfolding delete_built
  delete_built-log o w = ground arith

  redis_conn-log :
      (key host pass : String) (w : World S) → (redis_conn env key host pass w).1.log ≡ w.log
  unfolding redis_conn
  redis_conn-log key host pass w = refl

  append_condition-HistoryTrace :
      (backup : RedisBackup) (info : LastBackupInfo) (c : BackupCondition) (w : World S)
      → HistoryTrace env backup info w.log (append_condition env backup info c w).1.log
  unfolding append_condition
  append_condition-HistoryTrace backup info c w =
      elim (Bool-cases (is_new c backup.status.conditions)) [
        | inr old ↦ rw (append_condition, old) (recorded (record_info-log backup info w))
        | inl new ↦
            let extended = with_conditions backup (backup.status.conditions ++ c ∷ []) in
            let answer = env.api.update_backup_status extended w.cluster in
            let w' : World S = record {
              cluster = answer.1;
              log = updates_backup extended ∷ w.log;
            } in
            elim (Option-cases (answer.0).error) [
              | inr (err, fails) ↦ rw (append_condition, new, fails) (appended c new refl)
              | inl fine ↦
                  rw (append_condition, new, fine)
                    (appended_recorded c w.cluster new fine
                      (record_info-log (answer.0).value info w'))
            ]
      ]

  extend_history-HistoryTrace :
      (backup : RedisBackup) (info : LastBackupInfo) (res : String) (w : World S)
      → HistoryTrace env backup info w.log (extend_history env backup info res w).1.log
  unfolding extend_history
  extend_history-HistoryTrace backup info res w = elim (Bool-cases (res == "")) [
    | inl empty ↦ rw (extend_history, empty) (recorded (record_info-log backup info w))
    | inr full ↦ elim (Option-cases (get_elem? (env.host.unmarshal_conditions res) 0)) [
      | inl missing ↦ rw (extend_history, full, or_panic, missing) (unchanged refl)
      | inr (c, here) ↦
          rw (extend_history, full, or_panic, here) (append_condition-HistoryTrace backup info c w)
    ]
  ]

  -- What a pass that keeps the CronJob sends
  pub sync_history-HistoryTrace :
      (backup : RedisBackup) (info : LastBackupInfo) (host pass : String) (w : World S)
      → HistoryTrace env backup info w.log (sync_history env backup info host pass w).1.log
  unfolding sync_history
  sync_history-HistoryTrace backup info host pass w = extend_history-HistoryTrace backup info _ _

  set_job_conditions-log :
      (backup : RedisBackup) (res : String) (w : World S)
      → ((set_job_conditions env backup res w).1.log ≡ w.log)
        ⊎ ((cs : List BackupCondition) × ((set_job_conditions env backup res w).1.log
              ≡ updates_backup (with_conditions backup cs) ∷ w.log))
  unfolding set_job_conditions
  set_job_conditions-log backup res w = elim (Bool-cases (res == "")) [
    | inl empty ↦ inl (ground arith)
    | inr full ↦ inr (env.host.unmarshal_conditions res, ground arith)
  ]

  pub sync_job_status-log :
      (backup : RedisBackup) (job : Job) (key host pass : String) (w : World S)
      → ((sync_job_status env backup job key host pass w).1.log ≡ w.log)
        ⊎ ((cs : List BackupCondition) × ((sync_job_status env backup job key host pass w).1.log
              ≡ updates_backup (with_conditions backup cs) ∷ w.log))
  unfolding sync_job_status
  sync_job_status-log backup job key host pass w =
      elim (Bool-cases (is_none job.metadata.creation_timestamp)) [
        | inl absent ↦ rw (sync_job_status, absent) (inl refl)
        | inr present ↦ rw (sync_job_status, present) (set_job_conditions-log backup _ _)
      ]
