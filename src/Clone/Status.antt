-- ===== src/Clone/Status.antt =====
-- The status of a RedisClone: what both reconcilers write, and which errors they return.
use mathlib.Core.Path.{subst}
use redis_backup_operator.Base.{
  String, ◌==◌, ◌≡◌, refl, ◌≢◌, inl, inr, ap, sym, ◌∙◌, Option, none, some, List, [], ◌∷◌, ◌++◌,
  length, arith, Bool-cases, Option-cases, ==-eq-false, if◌then◌else◌,
}
use redis_backup_operator.Base.Text.{◌+++◌, contains}
use redis_backup_operator.Types.Kubernetes.{Pod}
use redis_backup_operator.Types.Clone.{RedisClone, CloneCondition}
use redis_backup_operator.Runtime.{
  World, Reply, Outcome, returned, updates_clone, Environment, Event, GoError, >>=-returned,
}
use redis_backup_operator.Redis.{options_of}
use redis_backup_operator.Backup.{pod_labels}
use redis_backup_operator.Clone.{
  with_replication, refresh, resume, finish_refresh, list_and_refresh, clone_info_sync,
}

-- The conditions where nothing is known of the destination
abbrev without_link : CloneCondition → CloneCondition
without_link c = record c { clone_lag = "-1"; clone_status = "down" }

-- The start time that the newest request writes
abbrev newest_start : List Event → String
newest_start (updates_clone clone ∷ log) = clone.status.conditions.start_time
newest_start _ = ""

∷-longer : (e : Event) (log : List Event) → log ≢ e ∷ log
∷-longer e log same = omega (arith, ap length same)

module _ {S : Type 0} (env : Environment S) where
  -- The section that the first pod answers, in the state `s`
  abbrev pub section : RedisClone → Pod → S → String
  section clone pod s =
      (env.redis.info
        (options_of pod.pod_ip "6379" (env.host.decode_base64 clone.spec.source_passwd))
        "replication" s).0.value

  -- The conditions after a refresh in the state `s`
  abbrev pub refreshed : RedisClone → CloneCondition → List Pod → S → CloneCondition
  refreshed clone c [] s = without_link c
  refreshed clone c (pod ∷ pods) s =
      if section clone pod s == "" then without_link c else with_replication c (section clone pod s)

  refresh-returns :
      (clone : RedisClone) (c : CloneCondition) (pods : List Pod) (w : World S)
      → (s : S) × (refresh env clone c pods w
          ≡ (returned (refreshed clone c pods w.cluster), record { cluster = s; log = w.log }))
  unfolding refresh
  refresh-returns clone c [] w = (w.cluster, refl)
  refresh-returns clone c (pod ∷ pods) w = (_, refl)

  -- The conditions that a refresh starts from: `now` is written where no start is recorded.
  abbrev pub resumed : RedisClone → String → CloneCondition
  resumed clone now =
      if clone.status.conditions.start_time == ""
      then record (clone.status.conditions) {
        source_cluster = clone.spec.source_cluster;
        dest_cluster = clone.spec.dest_cluster;
        replicas = clone.spec.replicas;
        cluster_type = clone.spec.cluster_type;
        source_ip_port = clone.spec.source_ip +++ ":" +++ clone.spec.source_port;
        start_time = now;
      }
      else clone.status.conditions

  -- The clock is read where no start is recorded.
  abbrev pub clock : RedisClone → S → String × S
  clock clone s = if clone.status.conditions.start_time == "" then env.host.now s else ("", s)

  resume-returns :
      (clone : RedisClone) (w : World S)
      → resume env clone w ≡ (
        returned (resumed clone (clock clone w.cluster).0),
        record { cluster = (clock clone w.cluster).1; log = w.log },
      )
  unfolding resume
  resume-returns clone w = elim (Bool-cases (clone.status.conditions.start_time == "")) [
    | inl is ↦ rw (resume, is)
    | inr isnt ↦ rw (resume, isnt)
  ]

  refreshed-start_time :
      (clone : RedisClone) (c : CloneCondition) (pods : List Pod) (s : S)
      → (refreshed clone c pods s).start_time ≡ c.start_time
  unfolding with_replication
  refreshed-start_time clone c [] s = refl
  refreshed-start_time clone c (pod ∷ pods) s = ground arith

  resumed-start_time :
      (clone : RedisClone) (now : String)
      → clone.status.conditions.start_time ≢ ""
      → (resumed clone now).start_time ≡ clone.status.conditions.start_time
  resumed-start_time clone now started =
      rw (==-eq-false clone.status.conditions.start_time "" started) refl

  module _ (namespace name : String) (w : World S) where
    abbrev pub read_clone : Reply RedisClone × S
    read_clone = env.api.get_redis_clone (record { namespace = namespace; name = name }) w.cluster

    abbrev pub clone : RedisClone
    clone = (read_clone.0).value

    -- The clock, where it is read, and the pods of the destination that are then listed
    abbrev pub started : String × S
    started = clock clone read_clone.1

    abbrev pub listing : Reply (List Pod) × S
    listing = env.api.list_pods (pod_labels "redis" clone.spec.dest_cluster) started.1

    -- The clone with the conditions that the listed pods give
    abbrev pub renewed_clone : RedisClone
    renewed_clone = record clone {
      status = record {
        conditions = refreshed clone (resumed clone started.0) (listing.0).value listing.1;
      };
    }

    -- What a refresh answers and sends. It is skipped where the clone cannot be read.
    pub data Refresh : Option GoError → List Event → Type 0 where
      skipped : {err : GoError} → (read_clone.0).error ≡ some err → Refresh none []
      unlisted :
          {err : GoError}
          → (read_clone.0).error ≡ none
          → (listing.0).error ≡ some err
          → Refresh (some err) []
      wrote :
          (read_clone.0).error ≡ none
          → (listing.0).error ≡ none
          → Refresh none (updates_clone renewed_clone ∷ [])

    pub data IsRefreshed (r : Outcome (Option GoError) × World S) : Type 0 where
      refreshed_by :
          (error : Option GoError) (events : List Event)
          → r.0 ≡ returned error
          → r.1.log ≡ events ++ w.log
          → Refresh error events
          → IsRefreshed r

    update-IsRefreshed :
        (s : S)
        → Refresh none (updates_clone renewed_clone ∷ [])
        → IsRefreshed (
            finish_refresh env clone
              (refreshed clone (resumed clone started.0) (listing.0).value listing.1)
              (record { cluster = s; log = w.log }))
    unfolding finish_refresh
    update-IsRefreshed s f = elim (Option-cases (env.api.update_clone_status renewed_clone s).0) [
      | inl fine ↦ rw (finish_refresh, fine) (refreshed_by none _ refl refl f)
      | inr (err, fails) ↦ elim (Bool-cases (contains err.message "the object has been modified")) [
        | inl conflict ↦ rw (finish_refresh, fails, conflict) (refreshed_by none _ refl refl f)
        | inr other ↦ rw (finish_refresh, fails, other) (refreshed_by none _ refl refl f)
      ]
    ]

    list_and_refresh-IsRefreshed :
        (read_clone.0).error ≡ none
        → IsRefreshed (
            list_and_refresh env clone
              (resumed clone started.0)
              (record { cluster = started.1; log = w.log }))
    unfolding list_and_refresh
    list_and_refresh-IsRefreshed read = elim (Option-cases (listing.0).error) [
      | inr (err, fails) ↦
          rw (list_and_refresh, fails) (refreshed_by (some err) [] refl refl (unlisted read fails))
      | inl fine ↦
          let pods = (listing.0).value in
          let here : World S = record { cluster = listing.1; log = w.log } in
          let (t, refreshes) = refresh-returns clone (resumed clone started.0) pods here in
          rw (list_and_refresh, fine)
            (subst IsRefreshed
              (sym (
                >>=-returned (refresh env clone (resumed clone started.0) pods)
                  (finish_refresh env clone) here refreshes))
              (update-IsRefreshed t (wrote read fine)))
    ]

    -- The periodic refresh returns. Where the clone cannot be read it sends nothing and has no
    -- error; where the pods of the destination cannot be listed it sends nothing and returns the
    -- error of the list; and otherwise it sends one status update, of the conditions that the
    -- section of the first listed pod gives, after the clock where no start was recorded, and has
    -- no error, also where the update is refused.
    pub clone_info_sync-IsRefreshed : IsRefreshed (clone_info_sync env namespace name w)
    unfolding clone_info_sync
    clone_info_sync-IsRefreshed = elim (Option-cases (read_clone.0).error) [
      | inr (err, missing) ↦
          rw (clone_info_sync, missing) (refreshed_by none [] refl refl (skipped missing))
      | inl read ↦
          let here : World S = record { cluster = read_clone.1; log = w.log } in
          rw (clone_info_sync, read)
            (subst IsRefreshed
              (sym (
                >>=-returned (resume env clone) (list_and_refresh env clone) here
                  (resume-returns clone here)))
              (list_and_refresh-IsRefreshed read))
    ]

    written-start_time :
        {error : Option GoError} {events : List Event}
        → (written : RedisClone) → clone.status.conditions.start_time ≢ ""
        → Refresh error events
        → events ++ w.log ≡ updates_clone written ∷ w.log
        → written.status.conditions.start_time ≡ clone.status.conditions.start_time
    written-start_time written begun (skipped h) e = absurd (∷-longer _ _ e)
    written-start_time written begun (unlisted r h) e = absurd (∷-longer _ _ e)
    written-start_time written begun (wrote r h) e =
        sym (ap newest_start e)
        ∙ refreshed-start_time clone (resumed clone started.0) (listing.0).value listing.1
        ∙ resumed-start_time clone started.0 begun

    -- A start that is recorded stays: where the start time that was read is not empty, the status
    -- update that a refresh sends has it too.
    clone_info_sync-start_time :
        (written : RedisClone)
        → clone.status.conditions.start_time ≢ ""
        → (clone_info_sync env namespace name w).1.log ≡ updates_clone written ∷ w.log
        → written.status.conditions.start_time ≡ clone.status.conditions.start_time
    clone_info_sync-start_time written begun sent = elim clone_info_sync-IsRefreshed [
      | refreshed_by error events answers logs f ↦
          written-start_time written begun f (sym logs ∙ sent)
    ]
