-- ===== src/Backup/OneShot/Runs.antt =====
-- Passes over a backup with no schedule, while its Job runs.
use mathlib.Core.Path.{subst}
use mathlib.Core.List.{map-append}
use redis_backup_operator.Base.{
  if◌then◌else◌, ◌==◌, suc, String, ◌≡◌, refl, sym, ap, ◌∙◌, true, false, not, none, List, [], ◌∷◌,
  ◌++◌, map, is_none,
}
use redis_backup_operator.Types.Kubernetes.{NamespacedName}
use redis_backup_operator.Runtime.{World, Environment, returned, done}
use redis_backup_operator.Backup.Reconcile.{reconcile}
use redis_backup_operator.Backup.Reconcile.Counts.{object_requests}
use redis_backup_operator.Backup.OneShot.{
  View, Step, pass, leaves, step_spec, pass_spec, run_spec, run_spec-append, run_spec-shoots,
  step_spec-decodes, step_spec-IsShot, has_pass,
}
use redis_backup_operator.Backup.OneShot.Store.{Store}
use redis_backup_operator.Backup.OneShot.Pass.{IsView, reconcile-Ends}

module _ {S : Type 0} {env : Environment S} {req : NamespacedName} (store : Store env req) where
  -- What the Job and others do to the cluster: anything that leaves the Job and the history. The
  -- given record then stands in redis.
  pub record Others (text : String) : Type 0 where
    pub act : S → S
    pub job : (s : S) → store.job_at (act s) ≡ store.job_at s
    pub status : (s : S) → store.status_at (act s) ≡ store.status_at s
    pub left : (s : S) → store.left_at (act s) ≡ text

  pub data Action : Type 0 where
    reconciles : Action
    others : (text : String) → Others text → Action

  -- The world after the actions
  abbrev pub shoot : List Action → World S → World S
  shoot [] w = w
  shoot (reconciles ∷ actions) w = shoot actions (reconcile env req w).1
  shoot (others text o ∷ actions) w = shoot actions (record w { cluster = o.act w.cluster })

  -- Every pass returns, with no error.
  pub Returns : List Action → World S → Type 0
  Returns [] w = Unit
  Returns (reconciles ∷ actions) w =
      ((reconcile env req w).0 ≡ returned done) × Returns actions (reconcile env req w).1
  Returns (others text o ∷ actions) w = Returns actions (record w { cluster = o.act w.cluster })

  abbrev pub step_of : Action → Step
  step_of reconciles = pass
  step_of (others text o) = leaves text

  -- The step on the abstract view, with the decoder of the process
  abbrev pub spec : List Action → View → View
  spec actions v = run_spec env.host.unmarshal_conditions (map step_of actions) v

  shoot-IsView :
      (actions : List Action) (w : World S) (v : View)
      → IsView store w v
      → Returns actions w × IsView store (shoot actions w) (spec actions v)
  unfolding Returns
  shoot-IsView [] w v h = (tt, h)
  shoot-IsView (reconciles ∷ actions) w v h =
      let (fine, now) = reconcile-Ends store w v h in
      let (rest, last) =
        shoot-IsView actions _ (pass_spec env.host.unmarshal_conditions v.has_job v) now in
      ((fine, rest), last)
  shoot-IsView (others text o ∷ actions) w v (here, left, holds, sent) =
      shoot-IsView actions _ (record v { left = text })
        (
          ap is_none (o.job w.cluster) ∙ here,
          o.left w.cluster,
          ap (λ st. st.conditions) (o.status w.cluster) ∙ holds,
          sent,
        )

  abbrev pub IsReconciled : List Action → Type 0
  IsReconciled actions = has_pass (map step_of actions) ≡ true

  -- Over a lawful store (a backup with no schedule, at every time a running master with a claim,
  -- and servers that grant every request) with no Job: after passes and acts of others that leave
  -- the Job and the history, at least one of them a pass, and then one more pass, all passes have
  -- returned with no error, the Job is there, exactly one request to create or delete an object was
  -- sent, and the history is what the record in redis decodes to, if there is one, and else as before
  -- the last pass.
  pub shoot-once :
      (before : List Action) (w : World S)
      → store.job_at w.cluster ≡ none
      → IsReconciled before
      → Returns (before ++ reconciles ∷ []) w
        × (is_none (store.job_at (shoot (before ++ reconciles ∷ []) w).cluster) ≡ false)
        × (object_requests (shoot (before ++ reconciles ∷ []) w).log ≡ suc (object_requests w.log))
        × ((store.status_at (shoot (before ++ reconciles ∷ []) w).cluster).conditions ≡ (
            if store.left_at (shoot before w).cluster == ""
            then (store.status_at (shoot before w).cluster).conditions
            else env.host.unmarshal_conditions (store.left_at (shoot before w).cluster)))
  shoot-once before w gone some_pass =
      let decode = env.host.unmarshal_conditions in
      let v : View = record {
        has_job = false;
        left = store.left_at w.cluster;
        history = (store.status_at w.cluster).conditions;
        requests = object_requests w.log;
      } in
      let start : IsView store w v = (ap is_none gone, refl, refl, refl) in
      let (fine, now) = shoot-IsView (before ++ reconciles ∷ []) w v start in
      let (well, here) = shoot-IsView before w v start in
      let u = spec before v in
      let shot = run_spec-shoots decode (map step_of before) v refl some_pass in
      let split : spec (before ++ reconciles ∷ []) v ≡ step_spec decode pass u =
        ap (λ l. run_spec decode l v) (map-append step_of before (reconciles ∷ []))
        ∙ run_spec-append decode (map step_of before) (pass ∷ []) v in
      let last = subst (IsView store (shoot (before ++ reconciles ∷ []) w)) split now in
      let again = step_spec-IsShot decode pass u (suc (object_requests w.log)) shot in
      (
        fine,
        last.0 ∙ ap not again.0,
        last.3 ∙ again.1,
        last.2
            ∙ step_spec-decodes decode u shot.0
            ∙ ap (λ h. if u.left == "" then h else decode u.left) (sym here.2)
            ∙ ap
                (λ l.
                  if l == ""
                  then (store.status_at (shoot before w).cluster).conditions
                  else decode l)
                (sym here.1),
      )
