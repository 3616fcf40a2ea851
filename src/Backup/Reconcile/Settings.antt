-- ===== src/Backup/Reconcile/Settings.antt =====
-- Whether the settings of a specification are the ones that the status of the backup records: what
-- the comparison of the reconciler decides.
use mathlib.Core.Bool.{false≢true}
use redis_backup_operator.Base.{
  ◌==◌, ◌≡◌, refl, sym, ◌∙◌, Bool, true, false, ◌&&◌, inl, inr, Bool-cases, eq_iff, ==-eq-true,
}
use redis_backup_operator.Types.Backup.{RedisBackupSpec, LastBackupInfo}
use redis_backup_operator.Backup.Steps.{backup_info, same_info}

-- The secret name, the URL and the schedule are the recorded ones.
abbrev pub IsRecorded : RedisBackupSpec → LastBackupInfo → Type 0
IsRecorded spec last =
    (spec.backup_secret_name ≡ last.backup_secret_name)
    × (spec.backup_url ≡ last.backup_url)
    × (spec.backup_schedule ≡ last.backup_schedule)

-- They are recorded, or at least one of them is not.
abbrev pub Records : RedisBackupSpec → LastBackupInfo → Bool → Type 0
Records spec last true = IsRecorded spec last
Records spec last false = ¬ IsRecorded spec last

same_info-IsRecorded :
    (spec : RedisBackupSpec) (last : LastBackupInfo)
    → IsRecorded spec last
    → same_info (backup_info spec) last ≡ true
same_info-IsRecorded spec last (secret, url, schedule) =
    rw
      (
        ==-eq-true spec.backup_secret_name last.backup_secret_name secret,
        ==-eq-true spec.backup_url last.backup_url url,
        ==-eq-true spec.backup_schedule last.backup_schedule schedule,
      )
      refl

and-parts : (a b : Bool) → (a && b) ≡ true → (a ≡ true) × (b ≡ true)
and-parts true b e = (refl, e)
and-parts false b e = absurd (false≢true e)

IsRecorded-same_info :
    (spec : RedisBackupSpec) (last : LastBackupInfo)
    → same_info (backup_info spec) last ≡ true
    → IsRecorded spec last
IsRecorded-same_info spec last same =
    let (rest, schedule) =
      and-parts
        (spec.backup_secret_name == last.backup_secret_name && spec.backup_url == last.backup_url)
        (spec.backup_schedule == last.backup_schedule) same in
    let (secret, url) =
      and-parts (spec.backup_secret_name == last.backup_secret_name)
        (spec.backup_url == last.backup_url) rest in
    (
      (eq_iff spec.backup_secret_name last.backup_secret_name).0 secret,
      (eq_iff spec.backup_url last.backup_url).0 url,
      (eq_iff spec.backup_schedule last.backup_schedule).0 schedule,
    )

-- What the comparison answers is whether the settings are recorded, and the converse.
pub Records-same_info :
    (spec : RedisBackupSpec) (last : LastBackupInfo) (b : Bool)
    → same_info (backup_info spec) last ≡ b
    → Records spec last b
Records-same_info spec last true same = IsRecorded-same_info spec last same
Records-same_info spec last false changed =
    λ all. false≢true (sym changed ∙ same_info-IsRecorded spec last all)

pub same_info-Records :
    (spec : RedisBackupSpec) (last : LastBackupInfo) (b : Bool)
    → Records spec last b
    → same_info (backup_info spec) last ≡ b
same_info-Records spec last true all = same_info-IsRecorded spec last all
same_info-Records spec last false changed = elim (Bool-cases (same_info (backup_info spec) last)) [
  | inl same ↦ absurd (changed (IsRecorded-same_info spec last same))
  | inr other ↦ other
]
