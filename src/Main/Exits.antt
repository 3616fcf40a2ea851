-- ===== src/Main/Exits.antt =====
-- When the process ends: at the start, and in the handlers of the resyncs.
use redis_backup_operator.Base.{◌≡◌, refl, ◌⊎◌, inl, inr, Option, none, some, List, [], ◌∷◌}
use redis_backup_operator.Types.Clone.{RedisClone}
use redis_backup_operator.Runtime.{
  World, M, call, GoError, Outcome, returned, exited, panicked, Event, Environment, >>=-returned,
}
use redis_backup_operator.Backup.{pod_labels}
use redis_backup_operator.Clone.{clone_info_sync}
use redis_backup_operator.Clone.Status.{
  Refresh, skipped, unlisted, wrote, refreshed_by, clone_info_sync-IsRefreshed, clone,
}
use redis_backup_operator.Scheme.{SchemeLibrary, init, new_client}
use redis_backup_operator.Main.{
  connect, set_up_redis_backup, set_up_redis_clone, set_up_redisoperate, Startup, Flags, fatal,
  on_clone_update,
}

-- Every step succeeds, each in the world that the one before it left.
abbrev pub AllSucceed : {S : Type 0} → List (M S (Option GoError)) → World S → Type 0
AllSucceed [] w = Unit
AllSucceed (step ∷ steps) w = ((step w).0 ≡ returned none) × AllSucceed steps (step w).1

-- A regular end where `All` holds, and otherwise the exit or a panic of the process
abbrev pub EndsBy : Outcome (Unit {0}) → Type 0 → Type 0
EndsBy r All = ((r ≡ returned tt) × All) ⊎ (((r ≡ exited) ⊎ (r ≡ panicked)) × (All → ⊥))

abbrev success : Outcome (Option GoError)
success = returned none

module _ {S B Sch C R : Type 0} (env : Environment S) (lib : SchemeLibrary B Sch C R)
    (startup : Startup S Sch C) (flags : Flags) where
  -- The scheme is set up, and then succeed, each in the state that the one before it left: the
  -- manager, the set-ups of the three controllers, the health checks, the client of the informers,
  -- the two informers, which never fail to start, and the manager's run.
  abbrev pub StartSucceeds : World S → Type 0
  StartSucceeds w =
      (scheme : Sch) × (init lib ≡ returned scheme)
      × AllSucceed
          (call (
              startup.new_manager (record {
                scheme = scheme;
                metrics_bind_address = flags.metrics_addr;
                port = 9443;
                health_probe_bind_address = flags.probe_addr;
                leader_election = flags.enable_leader_election;
                leader_election_id = "1d00c65a.bobfintech.com";
              }))
            ∷ set_up_redis_backup env startup.complete
            ∷ set_up_redis_clone env startup.complete
            ∷ set_up_redisoperate env startup.complete
            ∷ call startup.add_healthz_check
            ∷ call startup.add_readyz_check
            ∷ connect env lib startup
            ∷ call (λ s. (
              none,
              startup.run_informer
                  (record { resource = "redisbackups"; namespace = ""; resync_seconds = 1800 }) s,
            ))
            ∷ call (λ s. (
              none,
              startup.run_informer
                  (record { resource = "redisclones"; namespace = ""; resync_seconds = 5 }) s,
            ))
            ∷ call startup.start
            ∷ [])
          w

  -- The configuration of the cluster is read in the state, and NewClient makes a client of it.
  abbrev pub Connects : World S → Type 0
  Connects w =
      ((startup.in_cluster_config w.cluster).0.error ≡ none)
      × (client : Option R) × (new_client lib (startup.in_cluster_config w.cluster).0.value
          ≡ returned (client, none))

module _ {S : Type 0} (env : Environment S) where
  -- How the handler of a clone's resync ends.
  abbrev pub HandlerEnds : RedisClone → World S → Outcome (Unit {0}) → Type 0
  HandlerEnds object w r =
      (r ≡ returned tt)
      ⊎ ((r ≡ exited)
          × (s : S) × (err : GoError) × ((env.api.list_pods
                (pod_labels "redis"
                  (clone env object.metadata.namespace object.metadata.name w).spec.dest_cluster)
                s).0.error
              ≡ some err))

  fatal-HandlerEnds :
      (object : RedisClone) (w u : World S) {error : Option GoError} {events : List Event}
      → Refresh env object.metadata.namespace object.metadata.name w error events
      → HandlerEnds object w (fatal error u).0
  fatal-HandlerEnds object w u (skipped h) = inl refl
  fatal-HandlerEnds object w u (unlisted {err} read fails) = inr (refl, _, err, fails)
  fatal-HandlerEnds object w u (wrote read listed) = inl refl

  -- The handler of a clone's resync returns, or it ends the whole process; the latter only where
  -- the list of the destination's pods failed.
  pub on_clone_update-HandlerEnds :
      (object : RedisClone) (w : World S)
      → HandlerEnds object w (on_clone_update env (some object) w).0
  unfolding on_clone_update
  on_clone_update-HandlerEnds object w =
      elim (clone_info_sync-IsRefreshed env object.metadata.namespace object.metadata.name w) [
        | refreshed_by error events answers logs refresh ↦
            let sync = clone_info_sync env object.metadata.namespace object.metadata.name in
            rw (>>=-returned sync fatal w (λ i. (answers i, (sync w).1)))
              (fatal-HandlerEnds object w (sync w).1 refresh)
      ]
