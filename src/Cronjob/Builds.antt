-- ===== src/Cronjob/Builds.antt =====
-- What MakeCronJob builds, whatever the kind of the object.
use mathlib.Core.List.{Memᴰ}
use redis_backup_operator.Base.{
  String, ◌==◌, ◌≡◌, refl, Bool, true, false, not, ◌&&◌, Option, none, some, List, [], ◌∷◌, map,
  arith, All, if◌then◌else◌, get_elem?, ap, sym, ◌∙◌,
}
use redis_backup_operator.Types.Kubernetes.{
  VolumeMount, Container, EnvVar, Volume, PodSpec, Pod, Object, job, cron_job, cron_job_v1beta1,
}
use redis_backup_operator.Types.Backup.{RedisBackup}
use redis_backup_operator.Cronjob.{
  make_cron_job, make_cron_job_on, backup_job_spec, volumedir, cron_job_version_v1beta1,
}
use redis_backup_operator.Cronjob.Template.{job_spec_of, metadata_of}

-- The mount names a volume of the pod.
abbrev pub IsMounted : List Volume → VolumeMount → Type 0
IsMounted volumes mount = (v : Volume) × Memᴰ v volumes × (v.name ≡ mount.name)

abbrev is_listed : String → List String → Bool
is_listed name [] = false
is_listed name (x ∷ xs) = elim (name == x) [ true ↦ true | false ↦ is_listed name xs ]

abbrev pub are_distinct : List String → Bool
are_distinct [] = true
are_distinct (x ∷ xs) = not (is_listed x xs) && are_distinct xs

-- A pod that can run the backup of the claim: its claim is its one volume, its containers mount
-- volumes that it has, and no environment variable is set twice.
pub record IsBackupPod (backup_pvc : String) (pod : PodSpec) : Type 0 where
  pub claim :
      pod.volumes
      ≡ record {
        name = "data";
        persistent_volume_claim = some (record { claim_name = backup_pvc });
      }
        ∷ []
  pub mounted : All (λ (c : Container). All (IsMounted pod.volumes) c.volume_mounts) pod.containers
  pub distinct :
      All
        (λ (c : Container). are_distinct (map (λ (e : EnvVar). e.name) c.env) ≡ true)
        pod.containers

abbrev pub is_job : Object → Bool
is_job (job _) = true
is_job _ = false

abbrev pub is_v1beta1 : Object → Bool
is_v1beta1 (cron_job_v1beta1 _) = true
is_v1beta1 _ = false

abbrev pub schedule_of : Object → Option String
schedule_of (job _) = none
schedule_of (cron_job c) = some c.spec.schedule
schedule_of (cron_job_v1beta1 c) = some c.spec.schedule

module _ (lookup_env : String → Option String) (redis_key schedule version pvc cluster : String)
    (backup : RedisBackup) where
  abbrev pub built : List Pod → Option Object
  built = make_cron_job lookup_env redis_key schedule version pvc cluster backup

  pub make_cron_job-on :
      (pods : List Pod) {o : Object}
      → built pods ≡ some o
      → (first : Pod) × (o
          ≡ make_cron_job_on lookup_env redis_key schedule version pvc backup first)
        × (get_elem? pods 0 ≡ some first)
  unfolding make_cron_job
  make_cron_job-on [] e = cc
  make_cron_job-on (p ∷ pods) e = (p, cc, refl)

  job_spec_of-make_cron_job_on :
      (first : Pod)
      → job_spec_of (make_cron_job_on lookup_env redis_key schedule version pvc backup first)
        ≡ backup_job_spec lookup_env redis_key pvc backup first
  unfolding make_cron_job_on
  job_spec_of-make_cron_job_on first = ground arith

  -- What a build is, beside its job spec.
  pub record IsLabelled (o : Object) : Type 0 where
    pub name : (metadata_of o).name ≡ backup.metadata.name
    pub namespace : (metadata_of o).namespace ≡ backup.metadata.namespace
    pub labels :
        (metadata_of o).labels
        ≡ ("redis-sentinel-operator/cluster-name", backup.spec.cluster_name) ∷ []
    pub single_shot : is_job o ≡ (schedule == "")
    pub scheduled :
        schedule_of o ≡ (if schedule == "" then none else some backup.spec.backup_schedule)
    pub api_version : is_v1beta1 o ≡ (not (schedule == "") && version == cron_job_version_v1beta1)

  make_cron_job_on-IsLabelled :
      (first : Pod)
      → IsLabelled (make_cron_job_on lookup_env redis_key schedule version pvc backup first)
  unfolding make_cron_job_on
  make_cron_job_on-IsLabelled first = record {
    name = ground arith;
    namespace = ground arith;
    labels = ground arith;
    single_shot = ground arith;
    scheduled = ground arith;
    api_version = ground arith;
  }

  backup_job_spec-IsBackupPod :
      (first : Pod)
      → IsBackupPod pvc (backup_job_spec lookup_env redis_key pvc backup first).template
  unfolding backup_job_spec
  backup_job_spec-IsBackupPod first = record {
    claim = refl;
    mounted = ((((volumedir pvc), Memᴰ.head refl, refl), tt), tt);
    distinct = (refl, tt);
  }

  -- Every object that is built has the name and the namespace of the backup, and one label, under
  -- `redis-sentinel-operator/cluster-name` the name of the backup's cluster; it is a Job exactly
  -- when the schedule is empty, a `batch/v1beta1` CronJob exactly when the schedule is
  -- not empty and that version is asked for, and a CronJob has the schedule of the backup.
  pub make_cron_job-IsLabelled : (pods : List Pod) {o : Object} → built pods ≡ some o → IsLabelled o
  make_cron_job-IsLabelled pods e =
      let (first, same, _) = make_cron_job-on pods e in rw same (make_cron_job_on-IsLabelled first)

  -- Every object that is built runs a pod whose only volume is the given claim, whose containers
  -- mount only volumes of the pod, and that sets no environment variable twice.
  pub make_cron_job-IsBackupPod :
      (pods : List Pod) {o : Object}
      → built pods ≡ some o
      → IsBackupPod pvc (job_spec_of o).template
  make_cron_job-IsBackupPod pods e =
      let (first, same, _) = make_cron_job-on pods e in
      rw (same, job_spec_of-make_cron_job_on first) (backup_job_spec-IsBackupPod first)

-- Two builds for the same backup, claim, key and pods, under any schedules, versions and cluster
-- arguments, run the same job spec, whether they are Jobs or CronJobs.
pub make_cron_job_same_spec :
    (lookup_env : String → Option String) (redis_key pvc s s' v v' c c' : String)
    (backup : RedisBackup) (pods : List Pod) {o o' : Object}
    → make_cron_job lookup_env redis_key s v pvc c backup pods ≡ some o
    → make_cron_job lookup_env redis_key s' v' pvc c' backup pods ≡ some o'
    → job_spec_of o ≡ job_spec_of o'
make_cron_job_same_spec env key pvc s s' v v' c c' backup pods e e' =
    let (first, same, at) = make_cron_job-on env key s v pvc c backup pods e in
    let (first', same', at') = make_cron_job-on env key s' v' pvc c' backup pods e' in
    let on = job_spec_of-make_cron_job_on env key s v pvc c backup first in
    let on' = job_spec_of-make_cron_job_on env key s' v' pvc c' backup first' in
    let one : first ≡ first' = cc in
    ap job_spec_of same
    ∙ on
    ∙ ap (backup_job_spec env key pvc backup) one
    ∙ sym on'
    ∙ ap job_spec_of (sym same')
