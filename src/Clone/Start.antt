-- ===== src/Clone/Start.antt =====
-- What the reconciler of a RedisClone writes and returns.
use mathlib.Core.Path.{subst}
use redis_backup_operator.Base.{
  String, ◌==◌, ◌≡◌, refl, inl, inr, sym, Option, none, some, List, [], ◌∷◌, ◌++◌, Option-cases,
  if◌then◌else◌,
}
use redis_backup_operator.Base.Text.{◌+++◌}
use redis_backup_operator.Types.Kubernetes.{NamespacedName, Pod}
use redis_backup_operator.Types.Clone.{RedisClone, CloneCondition}
use redis_backup_operator.Runtime.{
  World, Reply, Outcome, returned, Result, done, failed, updates_clone, Environment, Event, GoError,
  >>=-returned,
}
use redis_backup_operator.Redis.{options_of, slave_info}
use redis_backup_operator.Backup.{pod_labels}
use redis_backup_operator.Clone.{
  with_replication, initial_conditions, observe, report, list_and_observe, reconcile,
}
use redis_backup_operator.Clone.Status.{section}

module _ {S : Type 0} (env : Environment S) where
  -- The conditions of a reconciliation in the state `s`
  abbrev pub observed : RedisClone → CloneCondition → List Pod → S → CloneCondition
  observed clone c [] s = c
  observed clone c (pod ∷ pods) s =
      if section env clone pod s == "" then c else with_replication c (section env clone pod s)

  -- The state after the section was asked for
  abbrev after_observe : RedisClone → List Pod → S → S
  after_observe clone [] s = s
  after_observe clone (pod ∷ pods) s =
      (env.redis.info
        (options_of pod.pod_ip "6379" (env.host.decode_base64 clone.spec.source_passwd))
        "replication" s).1

  observe-returns :
      (clone : RedisClone) (c : CloneCondition) (pods : List Pod) (w : World S)
      → observe env clone c pods w ≡ (
        returned (observed clone c pods w.cluster),
        record { cluster = after_observe clone pods w.cluster; log = w.log },
      )
  unfolding observe slave_info
  observe-returns clone c [] w = refl
  observe-returns clone c (pod ∷ pods) w = refl

  module _ (req : NamespacedName) (w : World S) where
    abbrev pub read_clone : Reply RedisClone × S
    read_clone = env.api.get_redis_clone req w.cluster

    abbrev pub clone : RedisClone
    clone = (read_clone.0).value

    abbrev pub clock : String × S
    clock = env.host.now read_clone.1

    -- The pods of the destination, listed after the clock was read
    abbrev pub listing : Reply (List Pod) × S
    listing = env.api.list_pods (pod_labels "redis" clone.spec.dest_cluster) clock.1

    abbrev pub conditions : CloneCondition
    conditions =
        observed clone
          (record {
            source_cluster = clone.spec.source_cluster;
            dest_cluster = clone.spec.dest_cluster;
            source_ip_port = clone.spec.source_ip +++ ":" +++ clone.spec.source_port;
            cluster_type = clone.spec.cluster_type;
            start_time = clock.0;
            off_set = "";
            clone_lag = "";
            clone_status = "down";
            replicas = clone.spec.replicas;
          })
          (listing.0).value listing.1

    abbrev pub reported : RedisClone
    reported = record clone { status = record { conditions = conditions } }

    -- The answer to the update, asked after the section of the first pod
    abbrev pub answer : Option GoError
    answer =
        (env.api.update_clone_status reported (after_observe clone (listing.0).value listing.1)).0

    -- What a pass answers and sends. An error of the read of the clone is not returned.
    pub data Report : Result → List Event → Type 0 where
      missing : {err : GoError} → (read_clone.0).error ≡ some err → Report done []
      unlisted :
          {err : GoError}
          → (read_clone.0).error ≡ none
          → (listing.0).error ≡ some err
          → Report (failed err) []
      granted :
          (read_clone.0).error ≡ none
          → (listing.0).error ≡ none
          → answer ≡ none
          → Report done (updates_clone reported ∷ [])
      refused :
          {err : GoError}
          → (read_clone.0).error ≡ none
          → (listing.0).error ≡ none
          → answer ≡ some err
          → Report (failed err) (updates_clone reported ∷ [])

    pub data IsReported (r : Outcome Result × World S) : Type 0 where
      reported_by :
          (result : Result) (events : List Event)
          → r.0 ≡ returned result
          → r.1.log ≡ events ++ w.log
          → Report result events
          → IsReported r

    report-IsReported :
        (read_clone.0).error ≡ none
        → (listing.0).error ≡ none
        → IsReported (
            report env clone conditions
              (record { cluster = after_observe clone (listing.0).value listing.1; log = w.log }))
    unfolding report
    report-IsReported read fine = elim (Option-cases answer) [
      | inl granted_it ↦
          rw (report, granted_it) (reported_by done _ refl refl (granted read fine granted_it))
      | inr (err, fails) ↦
          rw (report, fails) (reported_by (failed err) _ refl refl (refused read fine fails))
    ]

    list_and_observe-IsReported :
        (read_clone.0).error ≡ none
        → IsReported (
            list_and_observe env clone
              (initial_conditions clone clock.0)
              (record { cluster = clock.1; log = w.log }))
    unfolding list_and_observe
    list_and_observe-IsReported read = elim (Option-cases (listing.0).error) [
      | inr (err, fails) ↦
          rw (list_and_observe, fails) (reported_by (failed err) [] refl refl (unlisted read fails))
      | inl fine ↦
          let pods = (listing.0).value in
          let here : World S = record { cluster = listing.1; log = w.log } in
          let initial = initial_conditions clone clock.0 in
          rw (list_and_observe, fine)
            (subst IsReported
              (sym (
                >>=-returned (observe env clone initial pods) (report env clone) here
                  (observe-returns clone initial pods here)))
              (report-IsReported read fine))
    ]

    -- A pass over a RedisClone returns. Where the clone cannot be read it sends nothing and
    -- succeeds. Where the pods of the destination cannot be listed it sends nothing and returns the
    -- error of the list. Otherwise it sends one status update, of the fields of the spec, the
    -- clock's time, and what the first listed pod answers of its replication, and it returns the
    -- error of that update, if there is one.
    pub reconcile-IsReported : IsReported (reconcile env req w)
    unfolding reconcile
    reconcile-IsReported = elim (Option-cases (read_clone.0).error) [
      | inr (err, fails) ↦ rw (reconcile, fails) (reported_by done [] refl refl (missing fails))
      | inl read ↦ rw (reconcile, read) (list_and_observe-IsReported read)
    ]
