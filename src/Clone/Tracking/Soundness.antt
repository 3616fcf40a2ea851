-- ===== src/Clone/Tracking/Soundness.antt =====
-- The steps on the abstract view keep it sound, and after a write it tracks the destination.
use mathlib.Core.Bool.{false≢true}
use mathlib.Core.Path.{subst}
use redis_backup_operator.Base.{
  String, ◌==◌, ◌≡◌, refl, ◌≢◌, ◌⊎◌, inl, inr, none, some, List, [], ◌∷◌, Bool-cases, All, ap, sym,
  ◌∙◌, ◌++◌, ==-eq-true,
}
use redis_backup_operator.Types.Clone.{RedisCloneSpec, CloneCondition}
use redis_backup_operator.Clone.{with_replication}
use redis_backup_operator.Clone.Tracking.{
  Seen, View, Step, started, completed, renewed, step_spec, follow_spec, status_of, IsOfSpec,
  IsSound, Tracks, IsTimely, IsCalm, IsWrite, starts, refreshes, passes_on,
}

started-Tracks :
    (spec : RedisCloneSpec) (time : String) (seen : Seen)
    → time ≢ ""
    → IsOfSpec spec (started spec time seen)
      × ((started spec time seen).start_time ≢ "")
      × ((started spec time seen).clone_status ≡ status_of seen)
unfolding with_replication
started-Tracks spec time none on = ((refl, refl, refl, refl, refl), on, refl)
started-Tracks spec time (some section) on = ((refl, refl, refl, refl, refl), on, refl)

renewed-Tracks :
    (spec : RedisCloneSpec) (seen : Seen) (c : CloneCondition)
    → IsOfSpec spec c
    → c.start_time ≢ ""
    → IsOfSpec spec (renewed seen c)
      × ((renewed seen c).start_time ≢ "")
      × ((renewed seen c).clone_status ≡ status_of seen)
unfolding with_replication
renewed-Tracks spec none c of_spec on = (of_spec, on, refl)
renewed-Tracks spec (some section) c of_spec on = (of_spec, on, refl)

completed-IsOfSpec :
    (spec : RedisCloneSpec) (time : String) (c : CloneCondition)
    → time ≢ ""
    → (c.start_time ≡ "") ⊎ IsOfSpec spec c
    → IsOfSpec spec (completed spec time c) × ((completed spec time c).start_time ≢ "")
completed-IsOfSpec spec time c on sound = elim (Bool-cases (c.start_time == "")) [
  | inl fresh ↦ rw fresh ((refl, refl, refl, refl, refl), on)
  | inr begun ↦ elim sound [
    | inl fresh ↦ absurd (false≢true (sym begun ∙ ==-eq-true c.start_time "" fresh))
    | inr of_spec ↦ rw begun (of_spec, λ e. false≢true (sym begun ∙ ==-eq-true c.start_time "" e))
  ]
]

-- A write leads from sound conditions to ones that track the destination.
step_spec-Tracks :
    (spec : RedisCloneSpec) (s : Step) (v : View)
    → IsWrite s
    → IsSound spec v
    → Tracks spec (step_spec spec s v)
step_spec-Tracks spec starts v write (on, sound) = started-Tracks spec v.time v.seen on
step_spec-Tracks spec refreshes v write (on, sound) =
    let (of_spec, begun) = completed-IsOfSpec spec v.time v.conditions on sound in
    renewed-Tracks spec v.seen (completed spec v.time v.conditions) of_spec begun
step_spec-Tracks spec (passes_on seen time) v write sound = absurd write

step_spec-IsSound :
    (spec : RedisCloneSpec) (s : Step) (v : View)
    → IsTimely s
    → IsSound spec v
    → IsSound spec (step_spec spec s v)
step_spec-IsSound spec starts v timely h = (h.0, inr (step_spec-Tracks spec starts v tt h).0)
step_spec-IsSound spec refreshes v timely h = (h.0, inr (step_spec-Tracks spec refreshes v tt h).0)
step_spec-IsSound spec (passes_on seen time) v timely h = (timely, h.1)

follow_spec-IsSound :
    (spec : RedisCloneSpec) (ss : List Step) (v : View)
    → All IsTimely ss
    → IsSound spec v
    → IsSound spec (follow_spec spec ss v)
follow_spec-IsSound spec [] v timely h = h
follow_spec-IsSound spec (s ∷ ss) v (now, timely) h =
    follow_spec-IsSound spec ss (step_spec spec s v) timely (step_spec-IsSound spec s v now h)

-- Conditions that track what the destination says
abbrev IsAt : RedisCloneSpec → Seen → View → Type 0
IsAt spec seen v = (v.seen ≡ seen) × (v.time ≢ "") × Tracks spec v

step_spec-IsAt :
    (spec : RedisCloneSpec) (seen : Seen) (s : Step) (v : View)
    → IsCalm seen s
    → IsAt spec seen v
    → IsAt spec seen (step_spec spec s v)
step_spec-IsAt spec seen starts v calm (e, on, tracks) =
    (e, on, step_spec-Tracks spec starts v tt (on, inr tracks.0))
step_spec-IsAt spec seen refreshes v calm (e, on, tracks) =
    (e, on, step_spec-Tracks spec refreshes v tt (on, inr tracks.0))
step_spec-IsAt spec seen (passes_on now time) v (same, on') (e, on, tracks) =
    (same, on', (tracks.0, tracks.1, tracks.2 ∙ ap status_of (e ∙ sym same)))

follow_spec-IsAt :
    (spec : RedisCloneSpec) (seen : Seen) (ss : List Step) (v : View)
    → All (IsCalm seen) ss
    → IsAt spec seen v
    → IsAt spec seen (follow_spec spec ss v)
follow_spec-IsAt spec seen [] v calm h = h
follow_spec-IsAt spec seen (s ∷ ss) v (now, calm) h =
    follow_spec-IsAt spec seen ss (step_spec spec s v) calm (step_spec-IsAt spec seen s v now h)

pub follow_spec-append :
    (spec : RedisCloneSpec) (ss ts : List Step) (v : View)
    → follow_spec spec (ss ++ ts) v ≡ follow_spec spec ts (follow_spec spec ss v)
follow_spec-append spec [] ts v = refl
follow_spec-append spec (s ∷ ss) ts v = follow_spec-append spec ss ts (step_spec spec s v)

write-seen :
    (spec : RedisCloneSpec) (s : Step) (v : View) → IsWrite s → (step_spec spec s v).seen ≡ v.seen
write-seen spec starts v write = refl
write-seen spec refreshes v write = refl
write-seen spec (passes_on seen time) v write = absurd write

write-time :
    (spec : RedisCloneSpec) (s : Step) (v : View) → IsWrite s → (step_spec spec s v).time ≡ v.time
write-time spec starts v write = refl
write-time spec refreshes v write = refl
write-time spec (passes_on seen time) v write = absurd write

-- After a write, as long as the destination says the same, the conditions track it.
pub follow_spec-Tracks :
    (spec : RedisCloneSpec) (before : List Step) (s : Step) (after : List Step) (v : View)
    → IsSound spec v
    → All IsTimely before
    → IsWrite s
    → All (IsCalm (follow_spec spec before v).seen) after
    → ((follow_spec spec (before ++ s ∷ after) v).seen ≡ (follow_spec spec before v).seen)
      × Tracks spec (follow_spec spec (before ++ s ∷ after) v)
follow_spec-Tracks spec before s after v sound timely write calm =
    let u = follow_spec spec before v in
    let here = follow_spec-IsSound spec before v timely sound in
    let (same, on, tracks) = follow_spec-IsAt spec u.seen after (step_spec spec s u) calm (
      write-seen spec s u write,
      subst (λ t. t ≢ "") (sym (write-time spec s u write)) here.0,
      step_spec-Tracks spec s u write here,
    ) in
    subst (λ x. (x.seen ≡ u.seen) × Tracks spec x)
      (sym (follow_spec-append spec before (s ∷ after) v)) (same, tracks)
