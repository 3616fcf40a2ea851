-- ===== src/Backup.antt =====
-- controllers/redisbackup_controller.go: the reconciler of RedisBackup, its periodic check, and
-- the version of the CronJob API.
pub mod Master
pub mod Version
pub mod Steps
pub mod Reconcile
pub mod CycleSync
pub mod History
pub mod Convergence
pub mod OneShot
use redis_backup_operator.Base.{
  String, ◌==◌, Bool, true, false, Option, none, some, List, [], ◌∷◌, if◌then◌else◌, get_elem?,
}
use redis_backup_operator.Base.Text.{◌+++◌, Dict, get}
use redis_backup_operator.Types.Kubernetes.{Pod, Volume, PodSpec, ApiResourceList}
use redis_backup_operator.Cronjob.{cron_job_kind}

-- `Volumes[0].PersistentVolumeClaim.ClaimName`; `none` is an index out of range or a nil pointer.
unfoldable pub first_claim : PodSpec → Option String
first_claim spec = elim (get_elem? spec.volumes 0) [
  | none ↦ none
  | some v ↦ elim (v.persistent_volume_claim) [ none ↦ none | some claim ↦ some claim.claim_name ]
]

-- How the loop over the pods of the cluster ends: with the claim of the running master, at a
-- master that is not running, with no master, or in a panic at the master's volumes.
pub data MasterSearch : Type 0 where
  found : String → MasterSearch
  not_running : MasterSearch
  no_master : MasterSearch
  broken : MasterSearch

abbrev pub is_master : Pod → Bool
is_master p = get "redisfailovers-role" p.metadata.labels == "master"

abbrev pub claim_of_master : Pod → MasterSearch
claim_of_master p =
    if p.phase == "Running"
    then elim (first_claim p.spec) [ none ↦ broken | some claim ↦ found claim ]
    else not_running

-- The loop over `podlist.Items`
unfoldable pub search_master : List Pod → MasterSearch
search_master [] = no_master
search_master (p ∷ pods) = if is_master p then claim_of_master p else search_master pods

-- The labels of the pods of a redis or sentinel cluster
abbrev pub pod_labels : String → String → Dict String
pod_labels component cluster_name =
    ("app.kubernetes.io/component", component)
    ∷ ("app.kubernetes.io/managed-by", "redis-operator")
    ∷ ("app.kubernetes.io/name", cluster_name)
    ∷ ("app.kubernetes.io/part-of", "redis-failover")
    ∷ []

-- The inner loop of `getCronJobVersion`, over the resources of one group version
unfoldable pub scan_kinds : String → List String → String → String
scan_kinds group_version [] version = version
scan_kinds group_version (kind ∷ kinds) version =
    scan_kinds group_version kinds (if kind == cron_job_kind then group_version else version)

-- The outer loop of `getCronJobVersion`
unfoldable pub scan_versions : List ApiResourceList → String → String
unfolding scan_kinds
scan_versions [] version = version
scan_versions (r ∷ rs) version = scan_versions rs (scan_kinds r.group_version r.kinds version)
