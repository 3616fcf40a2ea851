-- ===== src/Setup.antt =====
-- SetupWithManager of the three controllers: what each watches and how. The manager itself, `complete`,
-- is third-party code.
pub mod Owned
use redis_backup_operator.Base.{
  ℕ, ◌==◌, String, Bool, true, false, Option, none, some, List, [], ◌∷◌, if◌then◌else◌,
}
use redis_backup_operator.Runtime.{M, call, ◌>>=◌, GoError, Environment}
use redis_backup_operator.Cronjob.{cron_job_version_v1beta1}
use redis_backup_operator.Backup.Reconcile.{get_cron_job_version}

pub data ObjectKind : Type 0 where
  redis_backups redis_clones redisoperates : ObjectKind
  jobs cron_jobs cron_jobs_v1beta1 : ObjectKind

-- What `ctrl.NewControllerManagedBy` is told before `Complete`. `generation_changed` is the event
-- filter of that name, and `none` an option that is not set.
pub record ControllerBuilder : Type 0 where
  pub for_kind : ObjectKind
  pub owns : List ObjectKind
  pub generation_changed : Bool
  pub max_concurrent_reconciles : Option ℕ

unfoldable pub redis_backup_builder : String → ControllerBuilder
redis_backup_builder version =
    if version == cron_job_version_v1beta1
    then record {
      for_kind = redis_backups;
      owns = cron_jobs_v1beta1 ∷ jobs ∷ [];
      generation_changed = false;
      max_concurrent_reconciles = some 20;
    }
    else record {
      for_kind = redis_backups;
      owns = cron_jobs ∷ jobs ∷ [];
      generation_changed = false;
      max_concurrent_reconciles = some 20;
    }

abbrev pub redis_clone_builder : ControllerBuilder
redis_clone_builder = record {
  for_kind = redis_clones;
  owns = [];
  generation_changed = true;
  max_concurrent_reconciles = some 5;
}

abbrev pub redisoperate_builder : ControllerBuilder
redisoperate_builder = record {
  for_kind = redisoperates;
  owns = [];
  generation_changed = false;
  max_concurrent_reconciles = none;
}

module _ {S : Type 0} (env : Environment S)
    (complete : ControllerBuilder → S → Option GoError × S) where
  unfoldable pub set_up_redis_backup : M S (Option GoError)
  unfolding redis_backup_builder get_cron_job_version
  set_up_redis_backup = do
    version ← get_cron_job_version env
    call (complete (redis_backup_builder version))

  unfoldable pub set_up_redis_clone : M S (Option GoError)
  set_up_redis_clone = call (complete redis_clone_builder)

  unfoldable pub set_up_redisoperate : M S (Option GoError)
  set_up_redisoperate = call (complete redisoperate_builder)
