-- ===== src/Backup/Version.antt =====
-- Which group version `getCronJobVersion` returns.
use redis_backup_operator.Base.{
  String, ◌==◌, ◌≡◌, refl, inl, inr, Bool, true, false, ◌||◌, List, [], ◌∷◌, ◌++◌, arith, All,
  Bool-cases, if◌then◌else◌,
}
use redis_backup_operator.Types.Kubernetes.{ApiResourceList}
use redis_backup_operator.Cronjob.{cron_job_kind}
use redis_backup_operator.Backup.{scan_kinds, scan_versions}

-- The group version serves CronJobs.
abbrev pub serves_kind : List String → Bool
serves_kind [] = false
serves_kind (kind ∷ kinds) = kind == cron_job_kind || serves_kind kinds

abbrev pub Serves : ApiResourceList → Bool → Type 0
Serves r b = serves_kind r.kinds ≡ b

scan_kinds_lem :
    (g : String) (kinds : List String) (v : String)
    → scan_kinds g kinds v ≡ (if serves_kind kinds then g else v)
unfolding scan_kinds
scan_kinds_lem g [] v = refl
scan_kinds_lem g (kind ∷ kinds) v = elim (Bool-cases (kind == cron_job_kind)) [
  | inl is ↦ ground (arith, scan_kinds_lem g kinds g)
  | inr isnt ↦ ground (arith, scan_kinds_lem g kinds v)
]

-- The last group version that serves CronJobs, or the given one where none does.
abbrev last_serving : List ApiResourceList → String → String
last_serving [] version = version
last_serving (r ∷ rs) version =
    last_serving rs (if serves_kind r.kinds then r.group_version else version)

scan_versions_lem :
    (rs : List ApiResourceList) (v : String) → scan_versions rs v ≡ last_serving rs v
unfolding scan_versions
scan_versions_lem [] v = refl
scan_versions_lem (r ∷ rs) v =
    rw (scan_kinds_lem r.group_version r.kinds v)
      (scan_versions_lem rs (if serves_kind r.kinds then r.group_version else v))

-- The version scan keeps the version it has where no list serves CronJobs.
scan_versions-none :
    (rs : List ApiResourceList) (v : String) → All (λ r. Serves r false) rs → scan_versions rs v ≡ v
scan_versions-none rs v h = rw (scan_versions_lem rs v) (kept rs v h)
  where
    kept :
        (rs : List ApiResourceList) (v : String)
        → All (λ r. Serves r false) rs
        → last_serving rs v ≡ v
    kept [] v h = refl
    kept (r ∷ rs) v h = rw (h.0) (kept rs v h.1)

-- The last list that serves CronJobs decides the version, whatever stands before it and whatever
-- version the scan starts from.
pub scan_versions-last :
    (before after : List ApiResourceList) (r : ApiResourceList) (v : String)
    → Serves r true
    → All (λ q. Serves q false) after
    → scan_versions (before ++ r ∷ after) v ≡ r.group_version
unfolding scan_versions
scan_versions-last [] after r v is none_after =
    rw (scan_versions, scan_kinds_lem r.group_version r.kinds v, is)
      (scan_versions-none after r.group_version none_after)
scan_versions-last (q ∷ before) after r v is none_after =
    scan_versions-last before after r (scan_kinds q.group_version q.kinds v) is none_after
