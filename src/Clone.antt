-- ===== src/Clone.antt =====
-- controllers/redisclone_controller.go: the reconciler of RedisClone and its periodic refresh.
pub mod Info
pub mod Start
pub mod Status
pub mod Tracking
use redis_backup_operator.Base.{
  String, ◌==◌, Bool, true, false, Option, none, some, List, [], ◌∷◌, if◌then◌else◌,
}
use redis_backup_operator.Base.Text.{◌+++◌, Dict, insert, get, split, contains}
use redis_backup_operator.Types.Kubernetes.{NamespacedName, Pod}
use redis_backup_operator.Types.Clone.{RedisClone, CloneCondition}
use redis_backup_operator.Runtime.{
  M, pure, call, send, ◌>>=◌, GoError, Result, done, failed, updates_clone, Environment,
}
use redis_backup_operator.Redis.{slave_info}
use redis_backup_operator.Backup.{pod_labels}

abbrev read_parts : List String → Dict String → Dict String
read_parts (key ∷ value ∷ []) info = insert key value info
read_parts _ info = info

-- One line of the replication section: it counts if it has exactly one colon.
unfoldable pub read_line : String → Dict String → Dict String
unfolding split insert
read_line line info = read_parts (split line ":") info

-- The loop over the lines
unfoldable pub read_lines : List String → Dict String → Dict String
unfolding read_line
read_lines [] info = info
read_lines (line ∷ lines) info = read_lines lines (read_line line info)

-- `replicationInfo`
unfoldable pub replication_info : String → Dict String
unfolding read_lines split
replication_info section = read_lines (split section "\n") []

-- The three fields that are taken from the replication section
unfoldable pub with_replication : CloneCondition → String → CloneCondition
with_replication conditions section =
    let info = replication_info section in
    record conditions {
      off_set = get "slave_repl_offset" info;
      clone_lag = get "master_last_io_seconds_ago" info;
      clone_status = get "master_link_status" info;
    }

abbrev pub source_ip_port : RedisClone → String
source_ip_port clone = clone.spec.source_ip +++ ":" +++ clone.spec.source_port

-- The conditions that `Reconcile` starts from
abbrev pub initial_conditions : RedisClone → String → CloneCondition
initial_conditions clone start_time = record {
  source_cluster = clone.spec.source_cluster;
  dest_cluster = clone.spec.dest_cluster;
  source_ip_port = source_ip_port clone;
  cluster_type = clone.spec.cluster_type;
  start_time = start_time;
  off_set = "";
  clone_lag = "";
  clone_status = "down";
  replicas = clone.spec.replicas;
}

-- The fields that `CloneInfoSync` fills in where no start is recorded
abbrev pub started_conditions : RedisClone → String → CloneCondition
started_conditions clone start_time = record (clone.status.conditions) {
  source_cluster = clone.spec.source_cluster;
  dest_cluster = clone.spec.dest_cluster;
  replicas = clone.spec.replicas;
  cluster_type = clone.spec.cluster_type;
  source_ip_port = source_ip_port clone;
  start_time = start_time;
}

-- No information: the lag is unknown and the link is down.
abbrev pub with_link_down : CloneCondition → CloneCondition
with_link_down conditions = record conditions { clone_lag = "-1"; clone_status = "down" }

abbrev pub with_conditions : RedisClone → CloneCondition → RedisClone
with_conditions clone conditions = record clone { status = record { conditions = conditions } }

module _ {S : Type 0} (env : Environment S) where
  abbrev update_status : RedisClone → M S (Option GoError)
  update_status clone = send (updates_clone clone) (env.api.update_clone_status clone)

  -- The replication section of the first pod; its error is dropped.
  abbrev section_of : RedisClone → Pod → M S String
  section_of clone pod = do
    (section, _) ←
        slave_info env pod.pod_ip "6379" (env.host.decode_base64 clone.spec.source_passwd)
    pure section

  -- The conditions of `Reconcile` after the pods were listed
  unfoldable pub observe : RedisClone → CloneCondition → List Pod → M S CloneCondition
  unfolding slave_info with_replication
  observe clone conditions [] = pure conditions
  observe clone conditions (pod ∷ pods) = do
    section ← section_of clone pod
    pure (if section == "" then conditions else with_replication conditions section)

  -- The update at the end of `Reconcile`
  unfoldable pub report : RedisClone → CloneCondition → M S Result
  report clone conditions = do
    refused ← update_status (with_conditions clone conditions)
    elim refused [ some err ↦ pure (failed err) | none ↦ pure done ]

  -- `Reconcile` from the list of pods on
  unfoldable pub list_and_observe : RedisClone → CloneCondition → M S Result
  list_and_observe clone initial = do
    pods ← call (env.api.list_pods (pod_labels "redis" clone.spec.dest_cluster))
    elim (pods.error) [
      | some err ↦ pure (failed err)
      | none ↦ do conditions ← observe clone initial pods.value; report clone conditions
    ]

  -- `Reconcile`; the clock is read before the pods are listed.
  unfoldable pub reconcile : NamespacedName → M S Result
  reconcile req = do
    got ← call (env.api.get_redis_clone req)
    elim (got.error) [
      | some err ↦ pure done
      | none ↦ do
        now ← call env.host.now
        list_and_observe got.value (initial_conditions got.value now)
    ]

  -- The conditions of `CloneInfoSync` after the pods were listed
  unfoldable pub refresh : RedisClone → CloneCondition → List Pod → M S CloneCondition
  unfolding slave_info with_replication
  refresh clone conditions [] = pure (with_link_down conditions)
  refresh clone conditions (pod ∷ pods) = do
    section ← section_of clone pod
    pure (if section == "" then with_link_down conditions else with_replication conditions section)

  -- The conditions that `CloneInfoSync` starts from; the clock is read where no start is recorded.
  unfoldable pub resume : RedisClone → M S CloneCondition
  resume clone =
      if clone.status.conditions.start_time == ""
      then (do now ← call env.host.now; pure (started_conditions clone now))
      else pure clone.status.conditions

  -- The update at the end of `CloneInfoSync`; its error is dropped, whatever its text.
  unfoldable pub finish_refresh : RedisClone → CloneCondition → M S (Option GoError)
  finish_refresh clone conditions = do
    refused ← update_status (with_conditions clone conditions)
    elim refused [
      | none ↦ pure none
      | some err ↦
          if contains err.message "the object has been modified" then pure none else pure none
    ]

  -- `CloneInfoSync` from the list of pods on
  unfoldable pub list_and_refresh : RedisClone → CloneCondition → M S (Option GoError)
  list_and_refresh clone resumed = do
    pods ← call (env.api.list_pods (pod_labels "redis" clone.spec.dest_cluster))
    elim (pods.error) [
      | some err ↦ pure (some err)
      | none ↦ do conditions ← refresh clone resumed pods.value; finish_refresh clone conditions
    ]

  -- `CloneInfoSync`
  unfoldable pub clone_info_sync : String → String → M S (Option GoError)
  clone_info_sync namespace name = do
    got ← call (env.api.get_redis_clone (record { namespace = namespace; name = name }))
    elim (got.error) [
      | some err ↦ pure none
      | none ↦ do resumed ← resume got.value; list_and_refresh got.value resumed
    ]
