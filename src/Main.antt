-- ===== src/Main.antt =====
-- main.go: the start of the process, and the handlers of the two periodic resyncs. The manager and
-- the informers are third-party code: the calls of the start are a parameter, of which only the
-- error and the client's configuration are read.
pub mod Exits
use redis_backup_operator.Base.{ℕ, String, Bool, Option, none, some, List, [], ◌∷◌}
use redis_backup_operator.Types.Backup.{RedisBackup}
use redis_backup_operator.Types.Clone.{RedisClone}
use redis_backup_operator.Runtime.{
  M, pure, call, ◌>>=◌, returned, exited, GoError, Environment, Outcome, Reply,
}
use redis_backup_operator.Scheme.{SchemeLibrary, RestConfig, init, new_client}
use redis_backup_operator.Setup.{
  ControllerBuilder, set_up_redis_backup, set_up_redis_clone, set_up_redisoperate,
}
use redis_backup_operator.Backup.CycleSync.{cycle_sync}
use redis_backup_operator.Clone.{clone_info_sync}

-- The command line
pub record Flags : Type 0 where
  pub metrics_addr : String
  pub enable_leader_election : Bool
  pub probe_addr : String

-- `ctrl.Options`
pub record ManagerOptions (Sch : Type 0) : Type 0 where
  pub scheme : Sch
  pub metrics_bind_address : String
  pub port : ℕ
  pub health_probe_bind_address : String
  pub leader_election : Bool
  pub leader_election_id : String

abbrev pub manager_options : {Sch : Type 0} → Sch → Flags → ManagerOptions Sch
manager_options scheme flags = record {
  scheme = scheme;
  metrics_bind_address = flags.metrics_addr;
  port = 9443;
  health_probe_bind_address = flags.probe_addr;
  leader_election = flags.enable_leader_election;
  leader_election_id = "1d00c65a.bobfintech.com";
}

-- What `cache.NewInformer` is told: the resource, the namespace (all of them where empty), and the
-- period of the resyncs. The handlers are `on_backup_update` and `on_clone_update`.
pub record Informer : Type 0 where
  pub resource : String
  pub namespace : String
  pub resync_seconds : ℕ

abbrev pub backup_informer : Informer
backup_informer = record { resource = "redisbackups"; namespace = ""; resync_seconds = 1800 }

abbrev pub clone_informer : Informer
clone_informer = record { resource = "redisclones"; namespace = ""; resync_seconds = 5 }

-- The third-party calls of `main`, each with the error that ends the process.
pub record Startup (S Sch C : Type 0) : Type 0 where
  pub new_manager : ManagerOptions Sch → S → Option GoError × S
  -- `Complete` of the controller's builder
  pub complete : ControllerBuilder → S → Option GoError × S
  pub add_healthz_check : S → Option GoError × S
  pub add_readyz_check : S → Option GoError × S
  pub in_cluster_config : S → Reply (RestConfig Sch C) × S
  -- `go controller.Run(stop)`
  pub run_informer : Informer → S → S
  -- until the process is told to stop
  pub start : S → Option GoError × S

-- `os.Exit(1)` or `log.Fatalf` on an error
abbrev pub fatal : {S : Type 0} → Option GoError → M S (Unit {0})
fatal none w = (returned tt, w)
fatal (some err) w = (exited, w)

unfoldable pub run_steps : {S : Type 0} → List (M S (Option GoError)) → M S (Unit {0})
run_steps [] = pure tt
run_steps (step ∷ steps) = do err ← step; _ ← fatal err; run_steps steps

-- What came of a computation outside of the cluster
abbrev lift : {S A : Type 0} → Outcome A → M S A
lift outcome w = (outcome, w)

-- `cycleRedisBackup` and `cycleRedisClone` answer no error.
abbrev pub cycle : {S Sch C : Type 0} → Startup S Sch C → Informer → M S (Option GoError)
cycle startup informer = call (λ s. (none, startup.run_informer informer s))

module _ {S B Sch C R : Type 0} (env : Environment S) (lib : SchemeLibrary B Sch C R)
    (startup : Startup S Sch C) where
  -- The configuration and the client of the informers; an error of either is fatal.
  unfoldable pub connect : M S (Option GoError)
  unfolding new_client
  connect = do
    config ← call startup.in_cluster_config
    elim (config.error) [
      | some err ↦ pure (some err)
      | none ↦ do made ← lift (new_client lib config.value); pure made.1
    ]

  abbrev pub steps_of : Sch → Flags → List (M S (Option GoError))
  steps_of scheme flags =
      call (startup.new_manager (manager_options scheme flags))
      ∷ set_up_redis_backup env startup.complete
      ∷ set_up_redis_clone env startup.complete
      ∷ set_up_redisoperate env startup.complete
      ∷ call startup.add_healthz_check
      ∷ call startup.add_readyz_check
      ∷ connect
      ∷ cycle startup backup_informer
      ∷ cycle startup clone_informer
      ∷ call startup.start
      ∷ []

  -- `init`, and then `main`, behind the flags
  unfoldable pub main : Flags → M S (Unit {0})
  unfolding init run_steps set_up_redis_backup set_up_redis_clone set_up_redisoperate connect
  main flags = do scheme ← lift (init lib); run_steps (steps_of scheme flags)

module _ {S : Type 0} (env : Environment S) where
  -- `UpdateFunc` of `cycleRedisBackup`; `none` is an object of another type.
  unfoldable pub on_backup_update : Option RedisBackup → M S (Unit {0})
  on_backup_update none = pure tt
  on_backup_update (some backup) = do
    err ← cycle_sync env backup.metadata.namespace backup.metadata.name
    fatal err

  -- `UpdateFunc` of `cycleRedisClone`
  unfoldable pub on_clone_update : Option RedisClone → M S (Unit {0})
  on_clone_update none = pure tt
  on_clone_update (some clone) = do
    err ← clone_info_sync env clone.metadata.namespace clone.metadata.name
    fatal err
