-- ===== src/DeepCopy/Layouts.antt =====
-- How blocks of texts, of map entries and of the served resources' structs are kept.
use redis_backup_operator.Base.{String, Option, none, some, List, refl}
use redis_backup_operator.DeepCopy.Memory.{Layout}
use redis_backup_operator.Types.Backup.{RedisBackupSpec, BackupCondition, LastBackupInfo, JobStatus}
use redis_backup_operator.Types.Clone.{RedisCloneSpec, RedisCloneStatus, CloneCondition}
use redis_backup_operator.Types.Operate.{RedisoperateSpec, RedisoperateStatus}
use redis_backup_operator.DeepCopy.Types.{
  Kind, RedisBackupList, RedisBackupStatusStruct, RedisBackupStruct, RedisCloneList,
  RedisCloneStruct, RedisoperateList, RedisoperateStruct,
}
use redis_backup_operator.DeepCopy.Cells.{
  Cell, strings, entries, job_statuses, backup_conditions, last_backup_infos, redis_backup_specs,
  clone_conditions, redis_clone_specs, redis_clone_status_blocks, redisoperate_specs,
  redisoperate_statuses, redis_backup_status_blocks, redis_backups, redis_backup_lists,
  redis_clones, redis_clone_lists, redisoperates, redisoperate_lists,
}

module _ {X : Kind → Type 0} {F : Type 0} where
  abbrev pub as_strings : Cell X F → Option (List (String))
  as_strings (strings xs) = some xs
  as_strings _ = none

  abbrev pub strings_layout : Layout (Cell X F) (String)
  strings_layout = record { block = strings; elements = as_strings; elements_block = λ xs. refl }

  abbrev pub as_entries : Cell X F → Option (List (String × String))
  as_entries (entries xs) = some xs
  as_entries _ = none

  abbrev pub entries_layout : Layout (Cell X F) (String × String)
  entries_layout = record { block = entries; elements = as_entries; elements_block = λ xs. refl }

  abbrev pub as_job_statuses : Cell X F → Option (List (JobStatus))
  as_job_statuses (job_statuses xs) = some xs
  as_job_statuses _ = none

  abbrev pub job_statuses_layout : Layout (Cell X F) (JobStatus)
  job_statuses_layout = record {
    block = job_statuses;
    elements = as_job_statuses;
    elements_block = λ xs. refl;
  }

  abbrev pub as_backup_conditions : Cell X F → Option (List (BackupCondition))
  as_backup_conditions (backup_conditions xs) = some xs
  as_backup_conditions _ = none

  abbrev pub backup_conditions_layout : Layout (Cell X F) (BackupCondition)
  backup_conditions_layout = record {
    block = backup_conditions;
    elements = as_backup_conditions;
    elements_block = λ xs. refl;
  }

  abbrev pub as_last_backup_infos : Cell X F → Option (List (LastBackupInfo))
  as_last_backup_infos (last_backup_infos xs) = some xs
  as_last_backup_infos _ = none

  abbrev pub last_backup_infos_layout : Layout (Cell X F) (LastBackupInfo)
  last_backup_infos_layout = record {
    block = last_backup_infos;
    elements = as_last_backup_infos;
    elements_block = λ xs. refl;
  }

  abbrev pub as_redis_backup_specs : Cell X F → Option (List (RedisBackupSpec))
  as_redis_backup_specs (redis_backup_specs xs) = some xs
  as_redis_backup_specs _ = none

  abbrev pub redis_backup_specs_layout : Layout (Cell X F) (RedisBackupSpec)
  redis_backup_specs_layout = record {
    block = redis_backup_specs;
    elements = as_redis_backup_specs;
    elements_block = λ xs. refl;
  }

  abbrev pub as_clone_conditions : Cell X F → Option (List (CloneCondition))
  as_clone_conditions (clone_conditions xs) = some xs
  as_clone_conditions _ = none

  abbrev pub clone_conditions_layout : Layout (Cell X F) (CloneCondition)
  clone_conditions_layout = record {
    block = clone_conditions;
    elements = as_clone_conditions;
    elements_block = λ xs. refl;
  }

  abbrev pub as_redis_clone_specs : Cell X F → Option (List (RedisCloneSpec))
  as_redis_clone_specs (redis_clone_specs xs) = some xs
  as_redis_clone_specs _ = none

  abbrev pub redis_clone_specs_layout : Layout (Cell X F) (RedisCloneSpec)
  redis_clone_specs_layout = record {
    block = redis_clone_specs;
    elements = as_redis_clone_specs;
    elements_block = λ xs. refl;
  }

  abbrev pub as_redis_clone_status_blocks : Cell X F → Option (List (RedisCloneStatus))
  as_redis_clone_status_blocks (redis_clone_status_blocks xs) = some xs
  as_redis_clone_status_blocks _ = none

  abbrev pub redis_clone_status_blocks_layout : Layout (Cell X F) (RedisCloneStatus)
  redis_clone_status_blocks_layout = record {
    block = redis_clone_status_blocks;
    elements = as_redis_clone_status_blocks;
    elements_block = λ xs. refl;
  }

  abbrev pub as_redisoperate_specs : Cell X F → Option (List (RedisoperateSpec))
  as_redisoperate_specs (redisoperate_specs xs) = some xs
  as_redisoperate_specs _ = none

  abbrev pub redisoperate_specs_layout : Layout (Cell X F) (RedisoperateSpec)
  redisoperate_specs_layout = record {
    block = redisoperate_specs;
    elements = as_redisoperate_specs;
    elements_block = λ xs. refl;
  }

  abbrev pub as_redisoperate_statuses : Cell X F → Option (List (RedisoperateStatus))
  as_redisoperate_statuses (redisoperate_statuses xs) = some xs
  as_redisoperate_statuses _ = none

  abbrev pub redisoperate_statuses_layout : Layout (Cell X F) (RedisoperateStatus)
  redisoperate_statuses_layout = record {
    block = redisoperate_statuses;
    elements = as_redisoperate_statuses;
    elements_block = λ xs. refl;
  }

  abbrev pub as_redis_backup_status_blocks : Cell X F → Option (List (RedisBackupStatusStruct X))
  as_redis_backup_status_blocks (redis_backup_status_blocks xs) = some xs
  as_redis_backup_status_blocks _ = none

  abbrev pub redis_backup_status_blocks_layout : Layout (Cell X F) (RedisBackupStatusStruct X)
  redis_backup_status_blocks_layout = record {
    block = redis_backup_status_blocks;
    elements = as_redis_backup_status_blocks;
    elements_block = λ xs. refl;
  }

  abbrev pub as_redis_backups : Cell X F → Option (List (RedisBackupStruct X))
  as_redis_backups (redis_backups xs) = some xs
  as_redis_backups _ = none

  abbrev pub redis_backups_layout : Layout (Cell X F) (RedisBackupStruct X)
  redis_backups_layout = record {
    block = redis_backups;
    elements = as_redis_backups;
    elements_block = λ xs. refl;
  }

  abbrev pub as_redis_backup_lists : Cell X F → Option (List (RedisBackupList X))
  as_redis_backup_lists (redis_backup_lists xs) = some xs
  as_redis_backup_lists _ = none

  abbrev pub redis_backup_lists_layout : Layout (Cell X F) (RedisBackupList X)
  redis_backup_lists_layout = record {
    block = redis_backup_lists;
    elements = as_redis_backup_lists;
    elements_block = λ xs. refl;
  }

  abbrev pub as_redis_clones : Cell X F → Option (List (RedisCloneStruct X))
  as_redis_clones (redis_clones xs) = some xs
  as_redis_clones _ = none

  abbrev pub redis_clones_layout : Layout (Cell X F) (RedisCloneStruct X)
  redis_clones_layout = record {
    block = redis_clones;
    elements = as_redis_clones;
    elements_block = λ xs. refl;
  }

  abbrev pub as_redis_clone_lists : Cell X F → Option (List (RedisCloneList X))
  as_redis_clone_lists (redis_clone_lists xs) = some xs
  as_redis_clone_lists _ = none

  abbrev pub redis_clone_lists_layout : Layout (Cell X F) (RedisCloneList X)
  redis_clone_lists_layout = record {
    block = redis_clone_lists;
    elements = as_redis_clone_lists;
    elements_block = λ xs. refl;
  }

  abbrev pub as_redisoperates : Cell X F → Option (List (RedisoperateStruct X))
  as_redisoperates (redisoperates xs) = some xs
  as_redisoperates _ = none

  abbrev pub redisoperates_layout : Layout (Cell X F) (RedisoperateStruct X)
  redisoperates_layout = record {
    block = redisoperates;
    elements = as_redisoperates;
    elements_block = λ xs. refl;
  }

  abbrev pub as_redisoperate_lists : Cell X F → Option (List (RedisoperateList X))
  as_redisoperate_lists (redisoperate_lists xs) = some xs
  as_redisoperate_lists _ = none

  abbrev pub redisoperate_lists_layout : Layout (Cell X F) (RedisoperateList X)
  redisoperate_lists_layout = record {
    block = redisoperate_lists;
    elements = as_redisoperate_lists;
    elements_block = λ xs. refl;
  }
