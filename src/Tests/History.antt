-- ===== src/Tests/History.antt =====
-- A second record for a history of one.
use mathlib.Core.Bool.{false≢true}
use redis_backup_operator.Base.{String, ◌==◌, refl, ap, [], ◌∷◌}
use redis_backup_operator.Types.Backup.{RedisBackup, BackupCondition, LastBackupInfo}
use redis_backup_operator.Runtime.{World, Environment}
use redis_backup_operator.Backup.Steps.{backup_info, extend_history, with_conditions}
use redis_backup_operator.Backup.History.{Extends, extend_history-Extends}
use redis_backup_operator.Tests.Cluster.{Cluster, environment, cluster_of, world_of, backup_of}

abbrev record_of : String → BackupCondition
record_of file_path = record {
  file_path = file_path;
  file_size = "1M";
  job_name = "nightly";
  pod_name = "nightly-1";
  object_name = "nightly";
  backup_start_time = "";
  backup_end_time = "";
  status = "Completed";
  message = "";
}

abbrev with_record : Environment Cluster
with_record = record environment {
  host = record (environment.host) { unmarshal_conditions = λ text. record_of text ∷ [] };
}

abbrev recorded_once : RedisBackup
recorded_once = with_conditions (backup_of "0 0 * * *") (record_of "monday" ∷ [])

abbrev start : World Cluster
start = world_of (cluster_of recorded_once "redis-data-0" [])

abbrev info : LastBackupInfo
info = backup_info recorded_once.spec

extend_history-Extends_example :
    Extends with_record recorded_once info
      (record_of "tuesday")
      []
      (extend_history with_record recorded_once info "tuesday" start).1.log
extend_history-Extends_example =
    extend_history-Extends with_record recorded_once info "tuesday" (record_of "tuesday") start
      (λ e. false≢true (ap (λ s. s == "") e)) refl tt
