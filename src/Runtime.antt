-- ===== src/Runtime.antt =====
-- What the operator calls and does not implement, and the monad in which it runs.
-- The API server, the redis servers and the process environment are operations over a state `S`
-- of which nothing is known: an operation answers as it likes, and other clients may have changed
-- the state in between. `World` adds a log of the requests that the operator has sent to change
-- something, the newest first; it records what was asked, whether or not it was granted.
pub mod Services
pub use Services.*
use redis_backup_operator.Base.{Option, none, some, Bool, true, false, List, ◌∷◌, ◌≡◌, ap}

pub record World (S : Type 0) : Type 0 where
  pub cluster : S
  pub log : List Event

-- An action of the program. A panic or an exit ends the action and keeps what was sent.
abbrev pub M : Type 0 → Type 0 → Type 0
M S A = World S → Outcome A × World S

abbrev pub pure : {S A : Type 0} → A → M S A
pure a w = (returned a, w)

infixl 5 ◌>>=◌ ◌>>◌
abbrev pub ◌>>=◌ : {S A B : Type 0} → M S A → (A → M S B) → M S B
◌>>=◌ m f w = elim (m w).0 [
  | returned a ↦ f a (m w).1
  | panicked ↦ (panicked, (m w).1)
  | exited ↦ (exited, (m w).1)
]

abbrev pub ◌>>◌ : {S B : Type 0} → M S (Unit {0}) → M S B → M S B
m >> k = m >>= λ _. k

-- A call that changes nothing the operator answers for.
abbrev pub call : {S A : Type 0} → (S → A × S) → M S A
call f w = (returned (f w.cluster).0, record w { cluster = (f w.cluster).1 })

-- A request that is logged.
abbrev pub send : {S A : Type 0} → Event → (S → A × S) → M S A
send e f w = (returned (f w.cluster).0, record { cluster = (f w.cluster).1; log = e ∷ w.log })

-- A nil dereference, or an index out of range, where `none`.
abbrev pub or_panic : {S A : Type 0} → Option A → M S A
or_panic none w = (panicked, w)
or_panic (some a) w = (returned a, w)

-- A step that is known to return is passed over.
pub >>=-returned :
    {S A B : Type 0} (m : M S A) (f : A → M S B) (w : World S) {a : A} {w' : World S}
    → m w ≡ (returned a, w')
    → (m >>= f) w ≡ f a w'
>>=-returned m f w e =
    ap
      (λ r. elim (r.0) [
        | returned a ↦ f a r.1
        | panicked ↦ (panicked, r.1)
        | exited ↦ (exited, r.1)
      ])
      e

-- A call that answers `a` and changes nothing is passed over.
pub >>=-call :
    {S A B : Type 0} (f : S → A × S) (k : A → M S B) (w : World S) {a : A}
    → f w.cluster ≡ (a, w.cluster)
    → (call f >>= k) w ≡ k a w
>>=-call f k w e =
    >>=-returned (call f) k w (ap (λ r. (returned r.0, record w { cluster = r.1 })) e)

-- A request that is answered `a` is passed over, and logged.
pub >>=-send :
    {S A B : Type 0} (e : Event) (f : S → A × S) (k : A → M S B) (w : World S) {a : A}
    → (f w.cluster).0 ≡ a
    → (send e f >>= k) w ≡ k a (record { cluster = (f w.cluster).1; log = e ∷ w.log })
>>=-send e f k w h =
    >>=-returned (send e f) k w
      (ap (λ b. (returned b, record { cluster = (f w.cluster).1; log = e ∷ w.log })) h)

-- `(ctrl.Result, error)`
pub record Result : Type 0 where
  pub requeue : Bool
  pub error : Option GoError

abbrev pub done : Result
done = record { requeue = false; error = none }

abbrev pub failed : GoError → Result
failed e = record { requeue = false; error = some e }

abbrev pub requeued : GoError → Result
requeued e = record { requeue = true; error = some e }
