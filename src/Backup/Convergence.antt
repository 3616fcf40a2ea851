-- ===== src/Backup/Convergence.antt =====
-- The abstract view of a backup with a schedule: the claim of the running master, whether the
-- backup's CronJob is there and on which claim, and whether the settings are recorded. A pass of
-- Reconcile and a run of CycleSync are steps on it, and so is what others do to the master.
pub mod Store
pub mod Endings
pub mod Reads
pub mod Pass
pub mod Check
pub mod Run
use redis_backup_operator.Base.{
  String, ◌==◌, ◌≡◌, refl, ◌⊎◌, inl, inr, sym, ap, ◌∙◌, Bool, true, false, Option, none, some, List,
  [], ◌∷◌, ◌++◌, if◌then◌else◌, arith, eq_refl, eq_iff, Bool-cases, All,
}

-- The claim of the CronJob, if there is one, and whether the status records the settings
abbrev pub Phase : Type 0
Phase = Option String × Bool

-- The claim of the running master, and the phase
abbrev pub Model : Type 0
Model = String × Phase

pub data Step : Type 0 where
  pass check : Step
  -- others act: the master stays where `none`
  moves : Option String → Step

-- A pass creates what is missing and records the settings, and it deletes a CronJob whose
-- settings are not recorded.
abbrev pub pass_spec : String → Phase → Phase
pass_spec claim (none, recorded) = (some claim, true)
pass_spec claim (some old, true) = (some old, true)
pass_spec claim (some old, false) = (none, false)

-- The periodic check deletes a CronJob on another claim.
abbrev pub check_spec : String → Phase → Phase
check_spec claim (none, recorded) = (none, recorded)
check_spec claim (some old, recorded) =
    if claim == old then (some old, recorded) else (none, recorded)

abbrev pub moved : Option String → String → String
moved none claim = claim
moved (some new) claim = new

abbrev pub step_spec : Step → Model → Model
step_spec pass (claim, p) = (claim, pass_spec claim p)
step_spec check (claim, p) = (claim, check_spec claim p)
step_spec (moves o) (claim, p) = (moved o claim, p)

abbrev pub run_spec : List Step → Model → Model
run_spec [] m = m
run_spec (s ∷ ss) m = run_spec ss (step_spec s m)

-- The CronJob is on the claim, and its settings are recorded.
abbrev pub settled : String → Phase
settled claim = (some claim, true)

-- The master stays.
abbrev pub IsSteady : Step → Type 0
IsSteady pass = Unit
IsSteady check = Unit
IsSteady (moves none) = Unit
IsSteady (moves (some new)) = ⊥

abbrev IsRecorded : Model → Type 0
IsRecorded m = (m.1.0 ≡ none) ⊎ (m.1.1 ≡ true)

abbrev IsRight : Model → Type 0
IsRight m = (m.1.0 ≡ none) ⊎ (m.1 ≡ settled m.0)

abbrev IsSettled : Model → Type 0
IsSettled m = m.1 ≡ settled m.0

pub run_spec-append :
    (ss ts : List Step) (m : Model) → run_spec (ss ++ ts) m ≡ run_spec ts (run_spec ss m)
run_spec-append [] ts m = refl
run_spec-append (s ∷ ss) ts m = run_spec-append ss ts (step_spec s m)

run_spec-keeps :
    (P : Model → Type 0)
    → ((s : Step) (m : Model) → IsSteady s → P m → P (step_spec s m))
    → (ss : List Step) (m : Model) → All IsSteady ss
    → P m
    → P (run_spec ss m)
run_spec-keeps P keep [] m steady h = h
run_spec-keeps P keep (s ∷ ss) m (still, steady) h =
    run_spec-keeps P keep ss (step_spec s m) steady (keep s m still h)

step_spec-claim : (s : Step) (m : Model) → IsSteady s → (step_spec s m).0 ≡ m.0
step_spec-claim pass m still = refl
step_spec-claim check m still = refl
step_spec-claim (moves none) m still = refl
step_spec-claim (moves (some new)) m still = absurd still

run_spec-claim : (ss : List Step) (m : Model) → All IsSteady ss → (run_spec ss m).0 ≡ m.0
run_spec-claim ss m steady =
    run_spec-keeps (λ n. n.0 ≡ m.0) (λ s n still e. step_spec-claim s n still ∙ e) ss m steady refl

pass_spec-IsRecorded : (m : Model) → IsRecorded (step_spec pass m)
pass_spec-IsRecorded (claim, (none, r)) = inr refl
pass_spec-IsRecorded (claim, (some old, true)) = inr refl
pass_spec-IsRecorded (claim, (some old, false)) = inl refl

step_spec-IsRecorded :
    (s : Step) (m : Model) → IsSteady s → IsRecorded m → IsRecorded (step_spec s m)
step_spec-IsRecorded pass m still h = pass_spec-IsRecorded m
step_spec-IsRecorded check (claim, (none, r)) still h = inl refl
step_spec-IsRecorded check (claim, (some old, true)) still h = elim (Bool-cases (claim == old)) [
  | inl same ↦ rw same (inr refl)
  | inr other ↦ rw other (inl refl)
]
step_spec-IsRecorded check (claim, (some old, false)) still (inl e) = cc
step_spec-IsRecorded check (claim, (some old, false)) still (inr e) = cc
step_spec-IsRecorded (moves none) m still h = h
step_spec-IsRecorded (moves (some new)) m still h = absurd still

check_spec-IsRight : (m : Model) → IsRecorded m → IsRight (step_spec check m)
check_spec-IsRight (claim, (none, r)) h = inl refl
check_spec-IsRight (claim, (some old, true)) h = elim (Bool-cases (claim == old)) [
  | inl same ↦ rw same (inr (λ i. (some (sym ((eq_iff claim old).0 same) i), true)))
  | inr other ↦ rw other (inl refl)
]
check_spec-IsRight (claim, (some old, false)) (inl e) = cc
check_spec-IsRight (claim, (some old, false)) (inr e) = cc

pass_spec-IsSettled : (m : Model) → IsRight m → IsSettled (step_spec pass m)
pass_spec-IsSettled (claim, (none, r)) (inl e) = refl
pass_spec-IsSettled (claim, (some old, r)) (inl e) = cc
pass_spec-IsSettled (claim, p) (inr e) = ap (pass_spec claim) e

step_spec-IsRight : (s : Step) (m : Model) → IsSteady s → IsRight m → IsRight (step_spec s m)
step_spec-IsRight pass m still h = inr (pass_spec-IsSettled m h)
step_spec-IsRight check (claim, (none, r)) still (inl e) = inl refl
step_spec-IsRight check (claim, (some old, r)) still (inl e) = cc
step_spec-IsRight check (claim, p) still (inr e) =
    inr (ap (check_spec claim) e ∙ rw (eq_refl claim) refl)
step_spec-IsRight (moves none) m still h = h
step_spec-IsRight (moves (some new)) m still h = absurd still

step_spec-IsSettled : (s : Step) (m : Model) → IsSteady s → IsSettled m → IsSettled (step_spec s m)
step_spec-IsSettled pass (claim, p) still e = ap (pass_spec claim) e
step_spec-IsSettled check (claim, p) still e = ap (check_spec claim) e ∙ rw (eq_refl claim) refl
step_spec-IsSettled (moves none) m still e = e
step_spec-IsSettled (moves (some new)) m still e = absurd still

-- After a pass, a check and a pass, in this order, with any steps before them and steady ones around
-- them, the phase is settled on the claim where the master stood before them.
pub run_spec-settles :
    (before between after last : List Step) (m : Model)
    → All IsSteady between
    → All IsSteady after
    → All IsSteady last
    → run_spec (before ++ (pass ∷ (between ++ (check ∷ (after ++ (pass ∷ last)))))) m
      ≡ ((run_spec before m).0, settled (run_spec before m).0)
run_spec-settles before between after last m steady1 steady2 steady3 =
    let m1 = run_spec before m in
    let m2 = run_spec between (step_spec pass m1) in
    let m3 = run_spec after (step_spec check m2) in
    let m4 = run_spec last (step_spec pass m3) in
    let recorded =
      run_spec-keeps IsRecorded step_spec-IsRecorded between _ steady1 (pass_spec-IsRecorded m1) in
    let right =
      run_spec-keeps IsRight step_spec-IsRight after _ steady2 (check_spec-IsRight m2 recorded) in
    let done =
      run_spec-keeps IsSettled step_spec-IsSettled last _ steady3 (pass_spec-IsSettled m3 right) in
    let stays : m4.0 ≡ m1.0 =
      run_spec-claim last (step_spec pass m3) steady3
      ∙ run_spec-claim after (step_spec check m2) steady2
      ∙ run_spec-claim between (step_spec pass m1) steady1 in
    run_spec-append before (pass ∷ (between ++ (check ∷ (after ++ (pass ∷ last))))) m
    ∙ run_spec-append between (check ∷ (after ++ (pass ∷ last))) (step_spec pass m1)
    ∙ run_spec-append after (pass ∷ last) (step_spec check m2)
    ∙ (λ i. (stays i, (done ∙ ap settled stays) i))
