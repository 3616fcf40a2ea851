-- ===== src/Cronjob/Exists.antt =====
-- The three results of ExistCronJob and ExistCronJobV1beta1 together.
use redis_backup_operator.Base.{
  String, ◌≡◌, refl, ◌↔◌, Bool, true, false, Option, none, some, arith, is_none, if◌then◌else◌,
}
use redis_backup_operator.Types.Kubernetes.{NamespacedName, CronJob}
use redis_backup_operator.Runtime.{World, Reply, GoError, returned}
use redis_backup_operator.Cronjob.{existence, exist_cron_job}

-- `errors.IsNotFound(err)` on the reply; the nil error is not a not-found error.
abbrev pub says_not_found : {A : Type 0} → Reply A → Bool
says_not_found reply = elim (reply.error) [ none ↦ false | some e ↦ e.is_not_found ]

module _ {S : Type 0} (name namespace : String) (get : NamespacedName → S → Reply CronJob × S)
    (w : World S) where
  -- The results of the lookup of a CronJob agree: the flag says whether the pointer is set, the
  -- pointer is nil exactly when `Get` answered that the object is not found, and nothing is sent.
  pub exist_cron_job_results :
      (found : Bool) (pointer : Option CronJob) (err : Option GoError)
      → (exist_cron_job name namespace get w).0 ≡ returned (found, pointer, err)
      → (is_none pointer ≡ (if found then false else true))
        × ((pointer ≡ none) ↔ (
            says_not_found (get (record { namespace = namespace; name = name }) w.cluster).0
            ≡ true))
        × ((found ≡ false) ↔ (pointer ≡ none))
        × ((exist_cron_job name namespace get w).1.log ≡ w.log)
  unfolding exist_cron_job
  exist_cron_job_results found pointer err h =
      (ground arith, (ground arith, ground arith), (ground arith, ground arith), ground arith)

  -- The lookup always returns, and sends nothing.
  pub exist_cron_job-returns : exist_cron_job name namespace get w ≡ (
    returned (existence (get (record { namespace = namespace; name = name }) w.cluster).0),
    record {
      cluster = (get (record { namespace = namespace; name = name }) w.cluster).1;
      log = w.log;
    },
  )
  unfolding exist_cron_job
  exist_cron_job-returns = refl
