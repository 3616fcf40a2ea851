-- ===== src/Backup/Reconcile/Answers.antt =====
-- What a pass answers to the work queue, and where its errors come from.
use mathlib.Core.Path.{subst}
use redis_backup_operator.Base.{
  ◌≡◌, refl, sym, Bool, true, false, Option, none, some, List, ◌∷◌, if◌then◌else◌,
}
use redis_backup_operator.Types.Kubernetes.{NamespacedName, Object}
use redis_backup_operator.Types.Backup.{RedisBackup}
use redis_backup_operator.Runtime.{
  World, M, pure, call, send, or_panic, ◌>>=◌, Outcome, returned, panicked, exited, Event, creates,
  deletes, updates_backup, GoError, Result, done, requeued, failed, Environment,
}

-- The errors of the reads that a pass makes, and that of the call which makes the backup the owner
-- of an object
pub data IsEarlyError {S : Type 0} (env : Environment S) (err : GoError) : Type 0 where
  secret_unread :
      (key : NamespacedName) (s : S)
      → (env.api.get_secret key s).0.error ≡ some err
      → IsEarlyError env err
  job_unread :
      (key : NamespacedName) (s : S)
      → (env.api.get_job key s).0.error ≡ some err
      → IsEarlyError env err
  cron_job_unread :
      (key : NamespacedName) (s : S)
      → (env.api.get_cron_job key s).0.error ≡ some err
      → IsEarlyError env err
  cron_job_v1beta1_unread :
      (key : NamespacedName) (s : S)
      → (env.api.get_cron_job_v1beta1 key s).0.error ≡ some err
      → IsEarlyError env err
  unowned :
      (b : RedisBackup) (o : Object)
      → (env.api.set_controller_reference b o).error ≡ some err
      → IsEarlyError env err

-- Every request after `base` was granted.
pub data IsGranted {S : Type 0} (env : Environment S) (base : List Event)
    : List Event → Type 0 where
  unsent : IsGranted env base base
  created :
      (o : Object) (s : S) {log : List Event}
      → (env.api.create o s).0 ≡ none
      → IsGranted env base log
      → IsGranted env base (creates o ∷ log)
  deleted :
      (o : Object) (s : S) {log : List Event}
      → (env.api.delete o s).0 ≡ none
      → IsGranted env base log
      → IsGranted env base (deletes o ∷ log)
  updated :
      (b : RedisBackup) (s : S) {log : List Event}
      → (env.api.update_backup_status b s).0.error ≡ none
      → IsGranted env base log
      → IsGranted env base (updates_backup b ∷ log)

-- What a pass answers, and what it has then sent. `base` is what was sent before the pass.
pub data IsAnswer {S : Type 0} (env : Environment S) (base : List Event)
    : Result → List Event → Type 0 where
  succeeded : (log : List Event) → IsGranted env base log → IsAnswer env base done log
  not_begun : (err : GoError) → IsEarlyError env err → IsAnswer env base (requeued err) base
  create_refused :
      (o : Object) (s : S) (err : GoError)
      → (env.api.create o s).0 ≡ some err
      → IsAnswer env base (requeued err) (creates o ∷ base)
  delete_refused :
      (o : Object) (s : S) (err : GoError)
      → (env.api.delete o s).0 ≡ some err
      → IsAnswer env base (requeued err) (deletes o ∷ base)
  update_refused :
      (b : RedisBackup) (s : S) (err : GoError) (log : List Event)
      → (env.api.update_backup_status b s).0.error ≡ some err
      → IsGranted env base log
      → IsAnswer env base (failed err) (updates_backup b ∷ log)

-- A pass that ends in a panic answers nothing.
abbrev pub Answers : {S : Type 0} → Environment S → List Event → Outcome Result × World S → Type 0
Answers env base r = elim (r.0) [
  | returned a ↦ IsAnswer env base a r.1.log
  | panicked ↦ Unit
  | exited ↦ Unit
]

module _ {S : Type 0} (env : Environment S) (base : List Event) where
  -- In whatever state of the cluster
  unfoldable pub Always : List Event → M S Result → Type 0
  Always log m = (s : S) → Answers env base (m (record { cluster = s; log = log }))

  pub done-Always : (log : List Event) → IsGranted env base log → Always log (pure done)
  unfolding Always
  done-Always log g s = succeeded log g

  pub not_begun-Always : (err : GoError) → IsEarlyError env err → Always base (pure (requeued err))
  unfolding Always
  not_begun-Always err early s = not_begun err early

  pub call-Always :
      {A : Type 0} (log : List Event) (f : S → A × S) (k : A → M S Result)
      → ((a : A) (s : S) → (f s).0 ≡ a → Always log (k a))
      → Always log (call f >>= k)
  unfolding Always
  call-Always log f k h s = h (f s).0 s refl (f s).1

  pub send-Always :
      {A : Type 0} (log : List Event) (e : Event) (f : S → A × S) (k : A → M S Result)
      → ((s : S) → Always (e ∷ log) (k (f s).0))
      → Always log (send e f >>= k)
  unfolding Always
  send-Always log e f k h s = h s (f s).1

  pub or_panic-Always :
      {A : Type 0} (log : List Event) (o : Option A) (k : A → M S Result)
      → ((a : A) → Always log (k a))
      → Always log (or_panic o >>= k)
  unfolding Always
  or_panic-Always log none k h s = tt
  or_panic-Always log (some a) k h s = h a s

  -- A step that sends nothing, and what follows it
  pub quiet-Always :
      {A : Type 0} (m : M S A) (k : A → M S Result)
      → ((s : S) → (m (record { cluster = s; log = base })).1.log ≡ base)
      → ((a : A) → Always base (k a))
      → Always base (m >>= k)
  unfolding Always
  quiet-Always {A} m k quiet h s =
      go (m (record { cluster = s; log = base })).0
        (m (record { cluster = s; log = base })).1.cluster
        (m (record { cluster = s; log = base })).1.log (quiet s)
    where
      go :
          (o : Outcome A) (s' : S) (log : List Event)
          → log ≡ base
          → Answers env base (elim o [
            | Outcome.returned a ↦ k a (record { cluster = s'; log = log })
            | Outcome.panicked ↦ (Outcome.panicked, record { cluster = s'; log = log })
            | Outcome.exited ↦ (Outcome.exited, record { cluster = s'; log = log })
          ])
      go (Outcome.returned a) s' log e =
          subst (λ l. Answers env base (k a (record { cluster = s'; log = l }))) (sym e) (h a s')
      go Outcome.panicked s' log e = tt
      go Outcome.exited s' log e = tt

  pub panicked-Always : (log : List Event) → Always log (or_panic none)
  unfolding Always
  panicked-Always log s = tt

  pub if-Always :
      (log : List Event) (b : Bool) (m n : M S Result)
      → Always log m
      → Always log n
      → Always log (if b then m else n)
  if-Always log true m n h k = h
  if-Always log false m n h k = k

  -- Either branch, with the equation that it has
  pub error-Always :
      {A : Type 0} (log : List Event) (o : Option A) (m : A → M S Result) (n : M S Result)
      → ((a : A) → o ≡ some a → Always log (m a))
      → (o ≡ none → Always log n)
      → Always log (elim o [ some a ↦ m a | none ↦ n ])
  error-Always log none m n h k = k refl
  error-Always log (some a) m n h k = h a refl
