-- ===== src/DeepCopy/ServedLaws.antt =====
-- The copies of the served resources are lawful.
use redis_backup_operator.Base.{◌≡◌, refl}
use redis_backup_operator.Types.Backup.{RedisBackupSpec, BackupCondition, LastBackupInfo, JobStatus}
use redis_backup_operator.Types.Clone.{RedisCloneSpec, RedisCloneStatus}
use redis_backup_operator.Types.Operate.{RedisoperateSpec}
use redis_backup_operator.DeepCopy.Types.{
  Kind, object_meta, list_meta, TypeMeta, RedisBackupList, RedisBackupStatusStruct,
  RedisBackupStruct, RedisCloneList, RedisCloneStruct, RedisoperateList, RedisoperateStruct,
}
use redis_backup_operator.DeepCopy.Cells.{Cell}
use redis_backup_operator.DeepCopy.Layouts.{
  job_statuses_layout, backup_conditions_layout, redis_backups_layout, redis_clones_layout,
  redisoperates_layout,
}
use redis_backup_operator.DeepCopy.Memory.{Memory, Ref}
use redis_backup_operator.DeepCopy.Lawful.{Deep, flat, both, via}
use redis_backup_operator.DeepCopy.Blocks.{ref}
use redis_backup_operator.DeepCopy.Served.{
  copy_redis_backup_status, copy_redis_backup, copy_redis_backup_list, copy_redis_clone,
  copy_redis_clone_list, copy_redisoperate, copy_redisoperate_list,
}

module _ {X : Kind → Type 0} {F : Type 0} (lib : (k : Kind) → Deep (Cell X F) (X k)) where
  abbrev pub redis_backup_status_fields :
      RedisBackupStatusStruct X → LastBackupInfo × ((Ref JobStatus) × (Ref BackupCondition))
  redis_backup_status_fields s = (s.last_backup_info, (s.job_status, s.conditions))

  abbrev pub redis_backup_status_parts :
      Deep (Cell X F) (LastBackupInfo × ((Ref JobStatus) × (Ref BackupCondition)))
  redis_backup_status_parts =
      both (flat {A = LastBackupInfo})
        (both (ref flat job_statuses_layout) (ref flat backup_conditions_layout))

  pub copy_redis_backup_status-fields :
      (s : RedisBackupStatusStruct X) (h : Memory (Cell X F))
      → (
        redis_backup_status_fields (copy_redis_backup_status lib s h).0,
        (copy_redis_backup_status lib s h).1,
      )
        ≡ redis_backup_status_parts.copy (redis_backup_status_fields s) h
  unfolding copy_redis_backup_status
  copy_redis_backup_status-fields s h = refl

  abbrev pub redis_backup_status_deep : Deep (Cell X F) (RedisBackupStatusStruct X)
  redis_backup_status_deep =
      via redis_backup_status_fields redis_backup_status_parts (copy_redis_backup_status lib)
        copy_redis_backup_status-fields

  abbrev pub redis_backup_fields :
      RedisBackupStruct X
      → (TypeMeta × RedisBackupSpec) × ((X object_meta) × (RedisBackupStatusStruct X))
  redis_backup_fields s = ((s.type_meta, s.spec), (s.metadata, s.status))

  abbrev pub redis_backup_parts :
      Deep
        (Cell X F)
        ((TypeMeta × RedisBackupSpec) × ((X object_meta) × (RedisBackupStatusStruct X)))
  redis_backup_parts =
      both (flat {A = TypeMeta × RedisBackupSpec}) (both (lib object_meta) redis_backup_status_deep)

  pub copy_redis_backup-fields :
      (s : RedisBackupStruct X) (h : Memory (Cell X F))
      → (redis_backup_fields (copy_redis_backup lib s h).0, (copy_redis_backup lib s h).1)
        ≡ redis_backup_parts.copy (redis_backup_fields s) h
  unfolding copy_redis_backup
  copy_redis_backup-fields s h = refl

  abbrev pub redis_backup_deep : Deep (Cell X F) (RedisBackupStruct X)
  redis_backup_deep =
      via redis_backup_fields redis_backup_parts (copy_redis_backup lib) copy_redis_backup-fields

  abbrev pub redis_backup_list_fields :
      RedisBackupList X → TypeMeta × ((X list_meta) × (Ref (RedisBackupStruct X)))
  redis_backup_list_fields s = (s.type_meta, (s.metadata, s.items))

  abbrev pub redis_backup_list_parts :
      Deep (Cell X F) (TypeMeta × ((X list_meta) × (Ref (RedisBackupStruct X))))
  redis_backup_list_parts =
      both (flat {A = TypeMeta}) (both (lib list_meta) (ref redis_backup_deep redis_backups_layout))

  pub copy_redis_backup_list-fields :
      (s : RedisBackupList X) (h : Memory (Cell X F))
      → (
        redis_backup_list_fields (copy_redis_backup_list lib s h).0,
        (copy_redis_backup_list lib s h).1,
      )
        ≡ redis_backup_list_parts.copy (redis_backup_list_fields s) h
  unfolding copy_redis_backup_list
  copy_redis_backup_list-fields s h = refl

  abbrev pub redis_backup_list_deep : Deep (Cell X F) (RedisBackupList X)
  redis_backup_list_deep =
      via redis_backup_list_fields redis_backup_list_parts (copy_redis_backup_list lib)
        copy_redis_backup_list-fields

  abbrev pub redis_clone_fields :
      RedisCloneStruct X → (TypeMeta × RedisCloneSpec × RedisCloneStatus) × (X object_meta)
  redis_clone_fields s = ((s.type_meta, s.spec, s.status), s.metadata)

  abbrev pub redis_clone_parts :
      Deep (Cell X F) ((TypeMeta × RedisCloneSpec × RedisCloneStatus) × (X object_meta))
  redis_clone_parts =
      both (flat {A = TypeMeta × RedisCloneSpec × RedisCloneStatus}) (lib object_meta)

  pub copy_redis_clone-fields :
      (s : RedisCloneStruct X) (h : Memory (Cell X F))
      → (redis_clone_fields (copy_redis_clone lib s h).0, (copy_redis_clone lib s h).1)
        ≡ redis_clone_parts.copy (redis_clone_fields s) h
  unfolding copy_redis_clone
  copy_redis_clone-fields s h = refl

  abbrev pub redis_clone_deep : Deep (Cell X F) (RedisCloneStruct X)
  redis_clone_deep =
      via redis_clone_fields redis_clone_parts (copy_redis_clone lib) copy_redis_clone-fields

  abbrev pub redis_clone_list_fields :
      RedisCloneList X → TypeMeta × ((X list_meta) × (Ref (RedisCloneStruct X)))
  redis_clone_list_fields s = (s.type_meta, (s.metadata, s.items))

  abbrev pub redis_clone_list_parts :
      Deep (Cell X F) (TypeMeta × ((X list_meta) × (Ref (RedisCloneStruct X))))
  redis_clone_list_parts =
      both (flat {A = TypeMeta}) (both (lib list_meta) (ref redis_clone_deep redis_clones_layout))

  pub copy_redis_clone_list-fields :
      (s : RedisCloneList X) (h : Memory (Cell X F))
      → (
        redis_clone_list_fields (copy_redis_clone_list lib s h).0,
        (copy_redis_clone_list lib s h).1,
      )
        ≡ redis_clone_list_parts.copy (redis_clone_list_fields s) h
  unfolding copy_redis_clone_list
  copy_redis_clone_list-fields s h = refl

  abbrev pub redis_clone_list_deep : Deep (Cell X F) (RedisCloneList X)
  redis_clone_list_deep =
      via redis_clone_list_fields redis_clone_list_parts (copy_redis_clone_list lib)
        copy_redis_clone_list-fields

  abbrev pub redisoperate_fields :
      RedisoperateStruct X → (TypeMeta × RedisoperateSpec) × (X object_meta)
  redisoperate_fields s = ((s.type_meta, s.spec), s.metadata)

  abbrev pub redisoperate_parts : Deep (Cell X F) ((TypeMeta × RedisoperateSpec) × (X object_meta))
  redisoperate_parts = both (flat {A = TypeMeta × RedisoperateSpec}) (lib object_meta)

  pub copy_redisoperate-fields :
      (s : RedisoperateStruct X) (h : Memory (Cell X F))
      → (redisoperate_fields (copy_redisoperate lib s h).0, (copy_redisoperate lib s h).1)
        ≡ redisoperate_parts.copy (redisoperate_fields s) h
  unfolding copy_redisoperate
  copy_redisoperate-fields s h = refl

  abbrev pub redisoperate_deep : Deep (Cell X F) (RedisoperateStruct X)
  redisoperate_deep =
      via redisoperate_fields redisoperate_parts (copy_redisoperate lib) copy_redisoperate-fields

  abbrev pub redisoperate_list_fields :
      RedisoperateList X → TypeMeta × ((X list_meta) × (Ref (RedisoperateStruct X)))
  redisoperate_list_fields s = (s.type_meta, (s.metadata, s.items))

  abbrev pub redisoperate_list_parts :
      Deep (Cell X F) (TypeMeta × ((X list_meta) × (Ref (RedisoperateStruct X))))
  redisoperate_list_parts =
      both (flat {A = TypeMeta}) (both (lib list_meta) (ref redisoperate_deep redisoperates_layout))

  pub copy_redisoperate_list-fields :
      (s : RedisoperateList X) (h : Memory (Cell X F))
      → (
        redisoperate_list_fields (copy_redisoperate_list lib s h).0,
        (copy_redisoperate_list lib s h).1,
      )
        ≡ redisoperate_list_parts.copy (redisoperate_list_fields s) h
  unfolding copy_redisoperate_list
  copy_redisoperate_list-fields s h = refl

  abbrev pub redisoperate_list_deep : Deep (Cell X F) (RedisoperateList X)
  redisoperate_list_deep =
      via redisoperate_list_fields redisoperate_list_parts (copy_redisoperate_list lib)
        copy_redisoperate_list-fields
