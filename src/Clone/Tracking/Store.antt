-- ===== src/Clone/Tracking/Store.antt =====
-- A cluster as one RedisClone sees it: what its servers are documented to answer and to store, and
-- what a pass of Reconcile and a run of CloneInfoSync make of it.
use redis_backup_operator.Base.{
  String, ◌==◌, ◌≡◌, refl, inl, inr, ap, ◌∙◌, Option, none, some, List, [], ◌∷◌, if◌then◌else◌,
  Bool-cases,
}
use redis_backup_operator.Types.Kubernetes.{NamespacedName, ObjectMeta, Pod}
use redis_backup_operator.Types.Clone.{RedisClone, RedisCloneSpec, CloneCondition}
use redis_backup_operator.Runtime.{
  World, M, Reply, Options, Environment, GoError, Result, done, failed, returned, pure, call, ◌>>=◌,
  >>=-call, >>=-returned,
}
use redis_backup_operator.Redis.{options_of, slave_info}
use redis_backup_operator.Backup.{pod_labels}
use redis_backup_operator.Clone.{
  initial_conditions, started_conditions, observe, report, list_and_observe, reconcile, refresh,
  resume, finish_refresh, list_and_refresh, clone_info_sync,
}
use redis_backup_operator.Clone.Status.{refreshed}
use redis_backup_operator.Clone.Start.{observed}
use redis_backup_operator.Clone.Tracking.{Seen, started, completed, renewed}

abbrev pub clone_with : ObjectMeta → RedisCloneSpec → CloneCondition → RedisClone
clone_with metadata spec c = record {
  metadata = metadata;
  spec = spec;
  status = record { conditions = c };
}

-- What the first pod says in the state `s`
abbrev pub says : {S : Type 0} → Environment S → RedisCloneSpec → Pod → S → String
says env spec pod s =
    (env.redis.info (options_of pod.pod_ip "6379" (env.host.decode_base64 spec.source_passwd))
      "replication" s).0.value

abbrev pub seen_in : {S : Type 0} → Environment S → RedisCloneSpec → List Pod → S → Seen
seen_in env spec [] s = none
seen_in env spec (pod ∷ pods) s =
    if says env spec pod s == "" then none else some (says env spec pod s)

pub record Store {S : Type 0} (env : Environment S) (req : NamespacedName) : Type 0 where
  pub metadata : ObjectMeta
  pub spec : RedisCloneSpec
  pub conditions_at : S → CloneCondition
  pub pods_at : S → List Pod
  pub time_at : S → String
  -- Reads answer what is stored, and change nothing.
  pub get_clone :
      (s : S)
      → env.api.get_redis_clone req s
        ≡ (record { value = clone_with metadata spec (conditions_at s); error = none }, s)
  pub list_pods :
      (s : S)
      → env.api.list_pods (pod_labels "redis" spec.dest_cluster) s
        ≡ (record { value = pods_at s; error = none }, s)
  pub clock : (s : S) → env.host.now s ≡ (time_at s, s)
  pub info : (options : Options) (s : S) → (env.redis.info options "replication" s).1 ≡ s
  -- A write is granted, and stores the conditions and nothing else.
  pub update_answers :
      (c : CloneCondition) (s : S)
      → (env.api.update_clone_status (clone_with metadata spec c) s).0 ≡ none
  pub update_stores :
      (c : CloneCondition) (s : S)
      → conditions_at (env.api.update_clone_status (clone_with metadata spec c) s).1 ≡ c
  pub update_time :
      (c : CloneCondition) (s : S)
      → time_at (env.api.update_clone_status (clone_with metadata spec c) s).1 ≡ time_at s
  pub update_seen :
      (c : CloneCondition) (s : S)
      → (let after = (env.api.update_clone_status (clone_with metadata spec c) s).1 in
          seen_in env spec (pods_at after) after ≡ seen_in env spec (pods_at s) s)

module _ {S : Type 0} {env : Environment S} {req : NamespacedName} (store : Store env req) where
  abbrev pub clone_of : CloneCondition → RedisClone
  clone_of c = clone_with store.metadata store.spec c

  abbrev pub clone_at : S → RedisClone
  clone_at s = clone_of (store.conditions_at s)

  abbrev pub seen_at : S → Seen
  seen_at s = seen_in env store.spec (store.pods_at s) s

  observe-reads :
      (clone : RedisClone) (c : CloneCondition) (pods : List Pod) (w : World S)
      → observe env clone c pods w ≡ (returned (observed env clone c pods w.cluster), w)
  unfolding observe slave_info
  observe-reads clone c [] w = refl
  observe-reads clone c (pod ∷ pods) w =
      ap (λ s. (returned (observed env clone c (pod ∷ pods) w.cluster), record w { cluster = s }))
        (store.info _ w.cluster)

  observed-started :
      (c : CloneCondition) (time : String) (pods : List Pod) (s : S)
      → observed env (clone_of c) (initial_conditions (clone_of c) time) pods s
        ≡ started store.spec time (seen_in env store.spec pods s)
  observed-started c time [] s = refl
  observed-started c time (pod ∷ pods) s = elim (Bool-cases (says env store.spec pod s == "")) [
    | inl empty ↦ rw empty refl
    | inr full ↦ rw full refl
  ]

  refresh-reads :
      (clone : RedisClone) (c : CloneCondition) (pods : List Pod) (w : World S)
      → refresh env clone c pods w ≡ (returned (refreshed env clone c pods w.cluster), w)
  unfolding refresh slave_info
  refresh-reads clone c [] w = refl
  refresh-reads clone c (pod ∷ pods) w =
      ap (λ s. (returned (refreshed env clone c (pod ∷ pods) w.cluster), record w { cluster = s }))
        (store.info _ w.cluster)

  refreshed-renewed :
      (d c : CloneCondition) (pods : List Pod) (s : S)
      → refreshed env (clone_of d) c pods s ≡ renewed (seen_in env store.spec pods s) c
  refreshed-renewed d c [] s = refl
  refreshed-renewed d c (pod ∷ pods) s = elim (Bool-cases (says env store.spec pod s == "")) [
    | inl empty ↦ rw empty refl
    | inr full ↦ rw full refl
  ]

  -- The reads of a pass, up to its update
  pub reconcile-reads :
      (w : World S)
      → reconcile env req w
        ≡ report env
            (clone_at w.cluster)
            (started store.spec (store.time_at w.cluster) (seen_at w.cluster))
            w
  unfolding reconcile list_and_observe
  reconcile-reads w =
      let clone = clone_at w.cluster in
      let initial = initial_conditions clone (store.time_at w.cluster) in
      let listed : Reply (List Pod) → M S Result = λ pods. elim (pods.error) [
        | some err ↦ pure (failed err)
        | none ↦ observe env clone initial pods.value >>= λ conditions. report env clone conditions
      ] in
      let got : Reply RedisClone → M S Result = λ got. elim (got.error) [
        | some err ↦ pure done
        | none ↦ call env.host.now >>= λ now.
            list_and_observe env got.value (initial_conditions got.value now)
      ] in
      >>=-call (env.api.get_redis_clone req) got w (store.get_clone w.cluster)
      ∙ >>=-call env.host.now (λ now. list_and_observe env clone (initial_conditions clone now)) w
          (store.clock w.cluster)
      ∙ >>=-call (env.api.list_pods _) listed w (store.list_pods w.cluster)
      ∙ >>=-returned (observe env clone initial (store.pods_at w.cluster)) (report env clone) w
          (observe-reads clone initial (store.pods_at w.cluster) w)
      ∙ ap (λ c. report env clone c w)
          (observed-started (store.conditions_at w.cluster) (store.time_at w.cluster)
            (store.pods_at w.cluster) w.cluster)

  resume-reads :
      (w : World S)
      → resume env (clone_at w.cluster) w ≡ (
        returned (completed store.spec (store.time_at w.cluster) (store.conditions_at w.cluster)),
        w,
      )
  unfolding resume
  resume-reads w = elim (Bool-cases ((store.conditions_at w.cluster).start_time == "")) [
    | inl fresh ↦
        rw (resume, fresh)
          (ap
            (λ r.
              (returned (started_conditions (clone_at w.cluster) r.0), record w { cluster = r.1 }))
            (store.clock w.cluster))
    | inr begun ↦ rw (resume, begun) refl
  ]

  -- The reads of a periodic refresh, up to its update
  pub clone_info_sync-reads :
      (w : World S)
      → clone_info_sync env req.namespace req.name w
        ≡ finish_refresh env
            (clone_at w.cluster)
            (renewed
              (seen_at w.cluster)
              (completed store.spec (store.time_at w.cluster) (store.conditions_at w.cluster)))
            w
  unfolding clone_info_sync list_and_refresh
  clone_info_sync-reads w =
      let clone = clone_at w.cluster in
      let c = completed store.spec (store.time_at w.cluster) (store.conditions_at w.cluster) in
      let listed : Reply (List Pod) → M S (Option GoError) = λ pods. elim (pods.error) [
        | some err ↦ pure (some err)
        | none ↦
            refresh env clone c pods.value >>= λ conditions. finish_refresh env clone conditions
      ] in
      let got : Reply RedisClone → M S (Option GoError) = λ got. elim (got.error) [
        | some err ↦ pure none
        | none ↦ resume env got.value >>= λ resumed. list_and_refresh env got.value resumed
      ] in
      >>=-call (env.api.get_redis_clone req) got w (store.get_clone w.cluster)
      ∙ >>=-returned (resume env clone) (list_and_refresh env clone) w (resume-reads w)
      ∙ >>=-call (env.api.list_pods _) listed w (store.list_pods w.cluster)
      ∙ >>=-returned (refresh env clone c (store.pods_at w.cluster)) (finish_refresh env clone) w
          (refresh-reads clone c (store.pods_at w.cluster) w)
      ∙ ap (λ c. finish_refresh env clone c w)
          (refreshed-renewed (store.conditions_at w.cluster) c (store.pods_at w.cluster) w.cluster)
