-- ===== src/Clone/Tracking/Writes.antt =====
-- What a pass and a periodic refresh write, and which view they leave.
use mathlib.Core.Path.{subst}
use redis_backup_operator.Base.{◌≡◌, refl, ap, sym, ◌∙◌, Option, none, some, ◌∷◌, if◌then◌else◌}
use redis_backup_operator.Types.Kubernetes.{NamespacedName}
use redis_backup_operator.Types.Clone.{CloneCondition}
use redis_backup_operator.Runtime.{
  World, M, Environment, GoError, Result, done, failed, returned, pure, updates_clone, >>=-send,
}
use redis_backup_operator.Clone.{report, finish_refresh, reconcile, clone_info_sync}
use redis_backup_operator.Base.Text.{contains}
use redis_backup_operator.Clone.Tracking.{
  View, starts, refreshes, started, completed, renewed, step_spec,
}
use redis_backup_operator.Clone.Tracking.Store.{
  Store, clone_of, clone_at, seen_at, reconcile-reads, clone_info_sync-reads,
}

module _ {S : Type 0} {env : Environment S} {req : NamespacedName} (store : Store env req) where
  abbrev pub IsView : S → View → Type 0
  IsView s v =
      (seen_at store s ≡ v.seen)
      × (store.time_at s ≡ v.time)
      × (store.conditions_at s ≡ v.conditions)

  -- The state after the update of the conditions
  abbrev updated : CloneCondition → S → S
  updated c s = (env.api.update_clone_status (clone_of store c) s).1

  abbrev writes : CloneCondition → World S → World S
  writes c w = record {
    cluster = updated c w.cluster;
    log = updates_clone (clone_of store c) ∷ w.log;
  }

  report-writes :
      (c : CloneCondition) (w : World S)
      → report env (clone_at store w.cluster) c w ≡ (returned done, writes c w)
  unfolding report
  report-writes c w =
      let answer : Option GoError → M S Result =
        λ refused. elim refused [ some err ↦ pure (failed err) | none ↦ pure done ] in
      >>=-send (updates_clone (clone_of store c)) (env.api.update_clone_status (clone_of store c))
        answer w (store.update_answers c w.cluster)

  finish_refresh-writes :
      (c : CloneCondition) (w : World S)
      → finish_refresh env (clone_at store w.cluster) c w ≡ (returned none, writes c w)
  unfolding finish_refresh
  finish_refresh-writes c w =
      let answer : Option GoError → M S (Option GoError) = λ refused. elim refused [
        | none ↦ pure none
        | some err ↦
            if contains err.message "the object has been modified" then pure none else pure none
      ] in
      >>=-send (updates_clone (clone_of store c)) (env.api.update_clone_status (clone_of store c))
        answer w (store.update_answers c w.cluster)

  updated-IsView :
      (c : CloneCondition) (s : S) (v : View)
      → IsView s v
      → IsView (updated c s) (record v { conditions = c })
  updated-IsView c s v (sees, shows, holds) =
      (store.update_seen c s ∙ sees, store.update_time c s ∙ shows, store.update_stores c s)

  pub reconcile-IsView :
      (w : World S) (v : View)
      → IsView w.cluster v
      → ((reconcile env req w).0 ≡ returned done)
        × IsView (reconcile env req w).1.cluster (step_spec store.spec starts v)
  reconcile-IsView w v (sees, shows, holds) =
      let written =
        ap (λ t. started store.spec t (seen_at store w.cluster)) shows
        ∙ ap (started store.spec v.time) sees in
      let ends =
        reconcile-reads store w
        ∙ ap (λ c. report env (clone_at store w.cluster) c w) written
        ∙ report-writes (started store.spec v.time v.seen) w in
      subst (λ r. (r.0 ≡ returned done) × IsView r.1.cluster (step_spec store.spec starts v))
        (sym ends)
        (refl, updated-IsView (started store.spec v.time v.seen) w.cluster v (sees, shows, holds))

  pub clone_info_sync-IsView :
      (w : World S) (v : View)
      → IsView w.cluster v
      → ((clone_info_sync env req.namespace req.name w).0 ≡ returned none)
        × IsView
            (clone_info_sync env req.namespace req.name w).1.cluster
            (step_spec store.spec refreshes v)
  clone_info_sync-IsView w v (sees, shows, holds) =
      let next = renewed v.seen (completed store.spec v.time v.conditions) in
      let written =
        ap
          (λ o.
            renewed o
              (completed store.spec (store.time_at w.cluster) (store.conditions_at w.cluster)))
          sees
        ∙ ap (λ t. renewed v.seen (completed store.spec t (store.conditions_at w.cluster))) shows
        ∙ ap (λ c. renewed v.seen (completed store.spec v.time c)) holds in
      let ends =
        clone_info_sync-reads store w
        ∙ ap (λ c. finish_refresh env (clone_at store w.cluster) c w) written
        ∙ finish_refresh-writes next w in
      subst (λ r. (r.0 ≡ returned none) × IsView r.1.cluster (step_spec store.spec refreshes v))
        (sym ends) (refl, updated-IsView next w.cluster v (sees, shows, holds))
