-- ===== src/Clone/Tracking/Runs.antt =====
-- Passes of Reconcile and runs of CloneInfoSync, in any order, while others act on the cluster.
use mathlib.Core.Path.{subst}
use mathlib.Core.List.{map-append}
use redis_backup_operator.Base.{
  String, ◌≡◌, refl, ap, sym, ◌∙◌, none, List, [], ◌∷◌, ◌++◌, map, All,
}
use redis_backup_operator.Types.Kubernetes.{NamespacedName}
use redis_backup_operator.Runtime.{World, Environment, done, returned}
use redis_backup_operator.Clone.{reconcile, clone_info_sync}
use redis_backup_operator.Clone.Tracking.{
  Seen, View, Step, starts, refreshes, passes_on, step_spec, follow_spec, IsSound, IsTimely, IsCalm,
  IsWrite, Tracks, IsLinked, status_of,
}
use redis_backup_operator.Clone.Tracking.Store.{Store, seen_at}
use redis_backup_operator.Clone.Tracking.Writes.{IsView, reconcile-IsView, clone_info_sync-IsView}
use redis_backup_operator.Clone.Tracking.Shows.{Shows, status_of-Shows}
use redis_backup_operator.Clone.Tracking.Soundness.{follow_spec-Tracks}

module _ {S : Type 0} {env : Environment S} {req : NamespacedName} (store : Store env req) where
  -- What others do to the cluster: anything that leaves the conditions. The destination then says,
  -- and the clock shows, what is given.
  pub record Others (seen : Seen) (time : String) : Type 0 where
    pub act : S → S
    pub sees : (s : S) → seen_at store (act s) ≡ seen
    pub shows : (s : S) → store.time_at (act s) ≡ time
    pub holds : (s : S) → store.conditions_at (act s) ≡ store.conditions_at s

  pub data Action : Type 0 where
    reconciles syncs : Action
    others : (seen : Seen) (time : String) → Others seen time → Action

  -- The world after the actions
  abbrev pub follow : List Action → World S → World S
  follow [] w = w
  follow (reconciles ∷ actions) w = follow actions (reconcile env req w).1
  follow (syncs ∷ actions) w = follow actions (clone_info_sync env req.namespace req.name w).1
  follow (others seen time o ∷ actions) w = follow actions (record w { cluster = o.act w.cluster })

  -- Every pass and every refresh returns, with no error.
  pub Returns : List Action → World S → Type 0
  Returns [] w = Unit
  Returns (reconciles ∷ actions) w =
      ((reconcile env req w).0 ≡ returned done) × Returns actions (reconcile env req w).1
  Returns (syncs ∷ actions) w =
      ((clone_info_sync env req.namespace req.name w).0 ≡ returned none)
      × Returns actions (clone_info_sync env req.namespace req.name w).1
  Returns (others seen time o ∷ actions) w =
      Returns actions (record w { cluster = o.act w.cluster })

  abbrev pub step_of : Action → Step
  step_of reconciles = starts
  step_of syncs = refreshes
  step_of (others seen time o) = passes_on seen time

  -- Over a lawful store (the clone is there, and the servers grant every request), passes and
  -- periodic refreshes, in any order and between any acts of others that leave the conditions, all
  -- return with no error, and each writes the conditions that the abstract step writes from what
  -- the destination then says, what the clock then shows, and the conditions that are stored.
  pub follow-IsView :
      (actions : List Action) (w : World S) (v : View)
      → IsView store w.cluster v
      → Returns actions w
        × IsView store (follow actions w).cluster (follow_spec store.spec (map step_of actions) v)
  unfolding Returns
  follow-IsView [] w v h = (tt, h)
  follow-IsView (reconciles ∷ actions) w v h =
      let (fine, now) = reconcile-IsView store w v h in
      let (rest, last) = follow-IsView actions _ (step_spec store.spec starts v) now in
      ((fine, rest), last)
  follow-IsView (syncs ∷ actions) w v h =
      let (fine, now) = clone_info_sync-IsView store w v h in
      let (rest, last) = follow-IsView actions _ (step_spec store.spec refreshes v) now in
      ((fine, rest), last)
  follow-IsView (others seen time o ∷ actions) w v (sees, shows, holds) =
      follow-IsView actions _ (step_spec store.spec (passes_on seen time) v)
        (o.sees w.cluster, o.shows w.cluster, o.holds w.cluster ∙ holds)

  abbrev pub view_at : S → View
  view_at s = record {
    seen = seen_at store s;
    time = store.time_at s;
    conditions = store.conditions_at s;
  }

  IsView-view_at : (s : S) (v : View) → IsView store s v → view_at s ≡ v
  IsView-view_at s v (sees, shows, holds) =
      λ i. record { seen = sees i; time = shows i; conditions = holds i }

  steps_of :
      (P : Step → Type 0) (actions : List Action)
      → All (λ a. P (step_of a)) actions
      → All P (map step_of actions)
  steps_of P [] h = tt
  steps_of P (a ∷ actions) (now, h) = (now, steps_of P actions h)

  -- Over a lawful store (the clone is there, and the servers grant every request), where the clock
  -- always shows a time, and no start is recorded or the conditions are of the specification:
  -- after any passes, periodic refreshes and acts of others that leave the conditions, then a pass
  -- or a refresh, and then any of these of which none changes what the destination says of its
  -- replication, every pass and refresh has returned with no error, the destination says what it
  -- said before the pass or refresh, and the stored conditions have the fields of the
  -- specification, a start time, and the link status that the destination then showed: "down" where
  -- it said nothing, and where it answered a section with lines that end in a carriage return and a
  -- line feed, the last value of `master_link_status` and the carriage return.
  pub follow-Tracks :
      (before : List Action) (a : Action) (after : List Action) (w : World S) (status : String)
      → Shows (seen_at store (follow before w).cluster) status
      → IsSound store.spec (view_at w.cluster)
      → All (λ b. IsTimely (step_of b)) before
      → IsWrite (step_of a)
      → All (λ b. IsCalm (seen_at store (follow before w).cluster) (step_of b)) after
      → Returns (before ++ a ∷ after) w
        × (seen_at store (follow (before ++ a ∷ after) w).cluster
            ≡ seen_at store (follow before w).cluster)
        × IsLinked store.spec status (store.conditions_at (follow (before ++ a ∷ after) w).cluster)
  follow-Tracks before a after w status shows sound timely write calm =
      let v = view_at w.cluster in
      let (fine, now) = follow-IsView (before ++ a ∷ after) w v (refl, refl, refl) in
      let (well, here) = follow-IsView before w v (refl, refl, refl) in
      let calm_steps =
        subst (λ seen. All (IsCalm seen) (map step_of after)) here.0
          (steps_of (IsCalm (seen_at store (follow before w).cluster)) after calm) in
      let (same, tracks) =
        follow_spec-Tracks store.spec (map step_of before) (step_of a) (map step_of after) v sound
          (steps_of IsTimely before timely) write calm_steps in
      let split : follow_spec store.spec (map step_of (before ++ a ∷ after)) v
          ≡ follow_spec store.spec (map step_of before ++ step_of a ∷ map step_of after) v =
        ap (λ l. follow_spec store.spec l v) (map-append step_of before (a ∷ after)) in
      let reached = IsView-view_at _ _ now ∙ split in
      let still = ap (λ v. v.seen) reached ∙ same ∙ sym here.0 in
      let (of_spec, begun, link) = subst (Tracks store.spec) (sym reached) tracks in
      (fine, still, (of_spec, begun, link ∙ ap status_of still ∙ status_of-Shows shows))
