-- ===== src/Backup/Convergence/Run.antt =====
-- Passes and periodic checks of a lawful store, in any order, while others act on the cluster.
use mathlib.Core.Path.{subst}
use mathlib.Core.List.{map-append}
use redis_backup_operator.Base.{
  ◌≡◌, ◌∙◌, refl, sym, ap, String, Option, none, some, List, [], ◌∷◌, ◌++◌, map, All,
}
use redis_backup_operator.Types.Kubernetes.{NamespacedName}
use redis_backup_operator.Runtime.{World, Environment, returned, done}
use redis_backup_operator.Backup.CycleSync.{cycle_sync}
use redis_backup_operator.Backup.Reconcile.{reconcile}
use redis_backup_operator.Backup.Convergence.{
  pass_spec, check_spec, Phase, Model, Step, pass, check, moves, moved, run_spec, run_spec-settles,
  settled, IsSteady,
}
use redis_backup_operator.Backup.Convergence.Store.{Store}
use redis_backup_operator.Backup.Convergence.Endings.{Ends, IsPhase}
use redis_backup_operator.Backup.Reconcile.Settings.{Records}
use redis_backup_operator.Backup.Convergence.Pass.{reconcile-Ends}
use redis_backup_operator.Backup.Convergence.Check.{Checks, cycle_sync-Checks}

module _ {S : Type 0} {env : Environment S} {req : NamespacedName} (store : Store env req) where
  -- What others do to the cluster: anything that leaves the CronJob and the status of the backup.
  -- The master stays where `none`, and else it is on the new claim.
  pub record Others (o : Option String) : Type 0 where
    pub act : S → S
    pub claim : (s : S) → store.claim_at (act s) ≡ moved o (store.claim_at s)
    pub cron_job : (s : S) → store.cron_job_at (act s) ≡ store.cron_job_at s
    pub status : (s : S) → store.status_at (act s) ≡ store.status_at s

  pub data Action : Type 0 where
    reconciles checks : Action
    others : (o : Option String) → Others o → Action

  -- The world after the actions
  abbrev pub run : List Action → World S → World S
  run [] w = w
  run (reconciles ∷ actions) w = run actions (reconcile env req w).1
  run (checks ∷ actions) w = run actions (cycle_sync env req.namespace req.name w).1
  run (others o f ∷ actions) w = run actions (record w { cluster = f.act w.cluster })

  -- Every pass and every check returns, with no error.
  pub Returns : List Action → World S → Type 0
  Returns [] w = Unit
  Returns (reconciles ∷ actions) w =
      ((reconcile env req w).0 ≡ returned done) × Returns actions (reconcile env req w).1
  Returns (checks ∷ actions) w =
      ((cycle_sync env req.namespace req.name w).0 ≡ returned none)
      × Returns actions (cycle_sync env req.namespace req.name w).1
  Returns (others o f ∷ actions) w = Returns actions (record w { cluster = f.act w.cluster })

  -- The step on the abstract view
  abbrev pub step_of : Action → Step
  step_of reconciles = pass
  step_of checks = check
  step_of (others o f) = moves o

  -- The master is on the claim, and the state is in the phase.
  abbrev pub IsState : S → Model → Type 0
  IsState s (claim, p) = (store.claim_at s ≡ claim) × IsPhase store s p

  -- An action after which the master is where it was
  abbrev pub IsCalm : Action → Type 0
  IsCalm a = IsSteady (step_of a)

  act-IsPhase :
      (o : Option String) (f : Others o) (s : S) (p : Phase)
      → IsPhase store s p
      → IsPhase store (f.act s) p
  act-IsPhase o f s (none, recorded) (gone, same) = (
    f.cron_job s ∙ gone,
    subst (λ t. Records store.spec t.last_backup_info recorded) (sym (f.status s)) same,
  )
  act-IsPhase o f s (some old, recorded) (here, same) = (
    record {
      c = here.c;
      stored = f.cron_job s ∙ here.stored;
      names = here.names;
      labelled = here.labelled;
      claims = here.claims;
    },
    subst (λ t. Records store.spec t.last_backup_info recorded) (sym (f.status s)) same,
  )

  moved-claim :
      (o : Option String) (f : Others o) (s : S) (c : String)
      → store.claim_at s ≡ c
      → store.claim_at (f.act s) ≡ moved o c
  moved-claim o f s c on = f.claim s ∙ ap (moved o) on

  -- Over a lawful store (a backup with a schedule, at every time a running master with a claim,
  -- CronJobs under `batch/v1` of which only this backup's has the label of the cluster, records in
  -- redis that decode to a list that is not empty, and servers that grant every request) in a state
  -- with a phase (the claim of the stored CronJob, if there is one, which then has the label of the
  -- cluster, and whether the secret name, the URL and the schedule are the recorded ones), passes and periodic checks, in any order and between any acts of others that leave
  -- the CronJob and the status of the backup, all return with no error, and each takes the phase
  -- where the abstract step takes it: a pass creates a missing CronJob on the claim where the
  -- master then is and records the settings, deletes one whose settings are not recorded, and keeps
  -- any other; a check deletes a CronJob on another claim than that of the running master; the
  -- others may move the master to another claim.
  pub run-IsState :
      (actions : List Action) (w : World S) (m : Model)
      → IsState w.cluster m
      → Returns actions w × IsState (run actions w).cluster (run_spec (map step_of actions) m)
  unfolding Returns
  run-IsState [] w m h = (tt, h)
  run-IsState (reconciles ∷ actions) w (c, p) (on, h) =
      let (fine, still, now) =
        subst (λ c. Ends store c (reconcile env req w) (pass_spec c p)) on
          (reconcile-Ends store w p h) in
      let (rest, last) = run-IsState actions _ (c, pass_spec c p) (still, now) in
      ((fine, rest), last)
  run-IsState (checks ∷ actions) w (c, p) (on, h) =
      let (fine, still, now) =
        subst (λ c. Checks store c (cycle_sync env req.namespace req.name w) (check_spec c p)) on
          (cycle_sync-Checks store w p h) in
      let (rest, last) = run-IsState actions _ (c, check_spec c p) (still, now) in
      ((fine, rest), last)
  run-IsState (others o f ∷ actions) w (c, p) (on, h) =
      run-IsState actions _ (moved o c, p)
        (moved-claim o f w.cluster c on, act-IsPhase o f w.cluster p h)

  steps-IsSteady : (actions : List Action) → All IsCalm actions → All IsSteady (map step_of actions)
  steps-IsSteady [] calm = tt
  steps-IsSteady (a ∷ actions) (still, calm) = (still, steps-IsSteady actions calm)

  -- The actions of a pass, a check and a pass, in this order, with others around them
  abbrev pub with_check : List Action → List Action → List Action → List Action
  with_check between after last =
      reconciles ∷ (between ++ (checks ∷ (after ++ (reconciles ∷ last))))

  map-with_check :
      (between after last : List Action)
      → map step_of (with_check between after last)
        ≡ pass ∷ (map step_of between ++ (check ∷ (map step_of after ++ (pass ∷ map step_of last))))
  map-with_check between after last =
      ap (λ l. pass ∷ l)
        (map-append step_of between (checks ∷ (after ++ (reconciles ∷ last)))
          ∙ ap (λ l. map step_of between ++ (check ∷ l))
              (map-append step_of after (reconciles ∷ last)))

  -- Over a lawful store (a backup with a schedule, at every time a running master with a claim,
  -- CronJobs under `batch/v1` of which only this backup's has the label of the cluster, records in
  -- redis that decode to a list that is not empty, and servers that grant every request) in a state
  -- with a phase (a stored CronJob has the label of the cluster), take any passes, checks and acts of others that leave the CronJob and the status
  -- of the backup, and then a pass, a check and a pass, in this order, with passes, checks and acts
  -- of others around them of which none moves the master. Every pass and every check returns with
  -- no error, and at the end the master is on the claim where the first actions left it, the
  -- CronJob is there with the label of the cluster and on this claim, and the secret name, the URL
  -- and the schedule of the specification are the recorded ones.
  pub run-settles :
      (before between after last : List Action) (w : World S) (p : Phase)
      → IsPhase store w.cluster p
      → All IsCalm between
      → All IsCalm after
      → All IsCalm last
      → Returns (before ++ with_check between after last) w
        × IsState
            (run (before ++ with_check between after last) w).cluster
            (store.claim_at (run before w).cluster, settled (store.claim_at (run before w).cluster))
  run-settles before between after last w p h calm1 calm2 calm3 =
      let start : Model = (store.claim_at w.cluster, p) in
      let (fine, now) = run-IsState (before ++ with_check between after last) w start (refl, h) in
      let (well, (on, then)) = run-IsState before w start (refl, h) in
      let split : run_spec (map step_of (before ++ with_check between after last)) start ≡ (
        store.claim_at (run before w).cluster,
        settled (store.claim_at (run before w).cluster),
      ) =
        ap (λ l. run_spec l start)
          (map-append step_of before _
            ∙ ap (λ l. map step_of before ++ l) (map-with_check between after last))
        ∙ run_spec-settles (map step_of before) (map step_of between) (map step_of after)
            (map step_of last) start (steps-IsSteady between calm1) (steps-IsSteady after calm2)
            (steps-IsSteady last calm3)
        ∙ ap (λ c. (c, settled c)) (sym on) in
      (
        fine,
        subst (λ m. IsState (run (before ++ with_check between after last) w).cluster m) split now,
      )
