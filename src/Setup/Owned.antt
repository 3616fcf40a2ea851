-- ===== src/Setup/Owned.antt =====
-- The manager watches what the backup controller creates.
use mathlib.Core.List.{Memᴰ}
use mathlib.Core.Path.{subst}
use mathlib.Core.Bool.{false≢true}
use redis_backup_operator.Cronjob.Builds.{make_cron_job-on}
use redis_backup_operator.Base.{
  String, ◌==◌, ◌≡◌, refl, ◌⊎◌, inl, inr, sym, ◌∙◌, true, false, Option, some, List, Bool-cases,
  ==-eq-true,
}
use redis_backup_operator.Types.Kubernetes.{Pod, Object, job, cron_job, cron_job_v1beta1}
use redis_backup_operator.Types.Backup.{RedisBackup}
use redis_backup_operator.Cronjob.{make_cron_job, make_cron_job_on, cron_job_version_v1beta1}
use redis_backup_operator.Setup.{
  ObjectKind, jobs, cron_jobs, cron_jobs_v1beta1, redis_backup_builder,
}

abbrev pub kind_of : Object → ObjectKind
kind_of (job _) = jobs
kind_of (cron_job _) = cron_jobs
kind_of (cron_job_v1beta1 _) = cron_jobs_v1beta1

-- The controller is told of changes to the object, once it has the backup as its owner.
abbrev pub IsOwned : String → Object → Type 0
IsOwned version o = Memᴰ (kind_of o) (redis_backup_builder version).owns

jobs-IsOwned : (version : String) → Memᴰ jobs (redis_backup_builder version).owns
unfolding redis_backup_builder
jobs-IsOwned version = elim (Bool-cases (version == cron_job_version_v1beta1)) [
  | inl old ↦ rw (redis_backup_builder, old) (Memᴰ.tail (Memᴰ.head refl))
  | inr stable ↦ rw (redis_backup_builder, stable) (Memᴰ.tail (Memᴰ.head refl))
]

module _ (lookup_env : String → Option String) (redis_key schedule version pvc cluster : String)
    (backup : RedisBackup) where
  make_cron_job_on-IsOwned :
      (first : Pod)
      → (schedule == "") ≡ false
      → IsOwned version (make_cron_job_on lookup_env redis_key schedule version pvc backup first)
  unfolding make_cron_job_on redis_backup_builder
  make_cron_job_on-IsOwned first full = elim (Bool-cases (version == cron_job_version_v1beta1)) [
    | inl old ↦ rw (make_cron_job_on, redis_backup_builder, full, old) (Memᴰ.head refl)
    | inr stable ↦ rw (make_cron_job_on, redis_backup_builder, full, stable) (Memᴰ.head refl)
  ]

  single_shot-IsOwned :
      (watched : String) (first : Pod)
      → (schedule == "") ≡ true
      → IsOwned watched (make_cron_job_on lookup_env redis_key schedule version pvc backup first)
  unfolding make_cron_job_on
  single_shot-IsOwned watched first empty = rw (make_cron_job_on, empty) (jobs-IsOwned watched)

  -- Every object that MakeCronJob builds is of a kind that the manager watches on behalf of the
  -- backup controller, if discovery answers the version that it answered at the start, or the
  -- object is for a single backup, whatever discovery answered.
  pub make_cron_job-IsOwned :
      (watched : String) (pods : List Pod) {o : Object}
      → (schedule ≡ "") ⊎ (version ≡ watched)
      → make_cron_job lookup_env redis_key schedule version pvc cluster backup pods ≡ some o
      → IsOwned watched o
  make_cron_job-IsOwned watched pods {o} agree e =
      let (first, same, _) =
        make_cron_job-on lookup_env redis_key schedule version pvc cluster backup pods e in
      subst (IsOwned watched) (sym same) (elim (Bool-cases (schedule == "")) [
        | inl empty ↦ single_shot-IsOwned watched first empty
        | inr full ↦ elim agree [
          | inl empty ↦ absurd (false≢true (sym full ∙ ==-eq-true schedule "" empty))
          | inr same_version ↦
              subst
                (λ v.
                  IsOwned v
                    (make_cron_job_on lookup_env redis_key schedule version pvc backup first))
                same_version (make_cron_job_on-IsOwned first full)
        ]
      ])
