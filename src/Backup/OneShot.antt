-- ===== src/Backup/OneShot.antt =====
-- The abstract view of a backup with no schedule: whether its Job is there, the record that the Job
-- has left in redis, the history, and how many objects were asked for. A pass of Reconcile is a step
-- on it, and so is a record that the Job leaves.
pub mod Store
pub mod Reads
pub mod Pass
pub mod Runs
use redis_backup_operator.Base.{
  ℕ, suc, ◌+◌, String, ◌==◌, ◌≡◌, refl, ◌≢◌, ap, sym, ◌∙◌, Bool, true, false, ◌||◌, List, [], ◌∷◌,
  ◌++◌, if◌then◌else◌, Bool-cases, inl, inr, ==-eq-false, arith,
}
use redis_backup_operator.Types.Backup.{BackupCondition}

pub record View : Type 0 where
  pub has_job : Bool
  pub left : String
  pub history : List BackupCondition
  pub requests : ℕ

pub data Step : Type 0 where
  pass : Step
  leaves : String → Step

-- A pass is among the steps.
abbrev pub has_pass : List Step → Bool
has_pass [] = false
has_pass (pass ∷ ss) = true
has_pass (leaves text ∷ ss) = has_pass ss

-- The Job is there, and `n` objects were asked for.
abbrev pub IsShot : ℕ → View → Type 0
IsShot n v = (v.has_job ≡ true) × (v.requests ≡ n)

module _ (decode : String → List BackupCondition) where
  abbrev pub pass_spec : Bool → View → View
  pass_spec false v = record v { has_job = true; requests = suc v.requests }
  pass_spec true v = if v.left == "" then v else record v { history = decode v.left }

  abbrev pub step_spec : Step → View → View
  step_spec pass v = pass_spec v.has_job v
  step_spec (leaves text) v = record v { left = text }

  abbrev pub run_spec : List Step → View → View
  run_spec [] v = v
  run_spec (s ∷ ss) v = run_spec ss (step_spec s v)

  pub run_spec-append :
      (ss ts : List Step) (v : View) → run_spec (ss ++ ts) v ≡ run_spec ts (run_spec ss v)
  run_spec-append [] ts v = refl
  run_spec-append (s ∷ ss) ts v = run_spec-append ss ts (step_spec s v)

  pass_spec-IsShot :
      (b : Bool) (v : View) (n : ℕ) → IsShot n v → b ≡ true → IsShot n (pass_spec b v)
  pass_spec-IsShot b v n h e = elim (Bool-cases (v.left == "")) [
    | inl empty ↦ rw (e, empty) h
    | inr full ↦ rw (e, full) h
  ]

  pub step_spec-IsShot : (s : Step) (v : View) (n : ℕ) → IsShot n v → IsShot n (step_spec s v)
  step_spec-IsShot pass v n h = pass_spec-IsShot v.has_job v n h h.0
  step_spec-IsShot (leaves text) v n h = h

  pub run_spec-IsShot : (ss : List Step) (v : View) (n : ℕ) → IsShot n v → IsShot n (run_spec ss v)
  run_spec-IsShot [] v n h = h
  run_spec-IsShot (s ∷ ss) v n h = run_spec-IsShot ss (step_spec s v) n (step_spec-IsShot s v n h)

  -- The first pass asks for the Job, and no other one does.
  pub run_spec-shoots :
      (ss : List Step) (v : View)
      → v.has_job ≡ false
      → has_pass ss ≡ true
      → IsShot (suc v.requests) (run_spec ss v)
  run_spec-shoots [] v none_yet some_pass = cc
  run_spec-shoots (pass ∷ ss) v none_yet some_pass =
      run_spec-IsShot ss (pass_spec v.has_job v) (suc v.requests) (rw none_yet (refl, refl))
  run_spec-shoots (leaves text ∷ ss) v none_yet some_pass =
      run_spec-shoots ss (record v { left = text }) none_yet some_pass

  -- A pass over an existing Job decodes what the Job has left, if there is any.
  pub step_spec-decodes :
      (v : View)
      → v.has_job ≡ true
      → (step_spec pass v).history ≡ (if v.left == "" then v.history else decode v.left)
  step_spec-decodes v there = elim (Bool-cases (v.left == "")) [
    | inl empty ↦ rw (there, empty) refl
    | inr full ↦ rw (there, full) refl
  ]
