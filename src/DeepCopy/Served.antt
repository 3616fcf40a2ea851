-- ===== src/DeepCopy/Served.antt =====
-- The copies of the served resources: `copy_x` is the method DeepCopyInto of the struct x, as a
-- function from `*in` to `*out`, `deep_copy_x` its DeepCopy, and `deep_copy_object_x` its
-- DeepCopyObject. A field that no statement names is copied by `*out = *in`, and so is a whole
-- struct with no references. `lib` is the third-party structs' DeepCopyInto.
use redis_backup_operator.Base.{Option, none, some}
use redis_backup_operator.DeepCopy.Types.{
  RuntimeObject, redis_backup_object, redis_backup_list_object, redis_clone_object,
  redis_clone_list_object, redisoperate_object, redisoperate_list_object,
}
use redis_backup_operator.Types.Backup.{RedisBackupSpec, BackupCondition, LastBackupInfo, JobStatus}
use redis_backup_operator.Types.Clone.{RedisCloneSpec, RedisCloneStatus, CloneCondition}
use redis_backup_operator.Types.Operate.{RedisoperateSpec, RedisoperateStatus}
use redis_backup_operator.DeepCopy.Types.{
  Kind, object_meta, list_meta, RedisBackupList, RedisBackupStatusStruct, RedisBackupStruct,
  RedisCloneList, RedisCloneStruct, RedisoperateList, RedisoperateStruct,
}
use redis_backup_operator.DeepCopy.Cells.{Cell}
use redis_backup_operator.DeepCopy.Layouts.{
  job_statuses_layout, backup_conditions_layout, last_backup_infos_layout,
  redis_backup_specs_layout, clone_conditions_layout, redis_clone_specs_layout,
  redis_clone_status_blocks_layout, redisoperate_specs_layout, redisoperate_statuses_layout,
  redis_backup_status_blocks_layout, redis_backups_layout, redis_backup_lists_layout,
  redis_clones_layout, redis_clone_lists_layout, redisoperates_layout, redisoperate_lists_layout,
}
use redis_backup_operator.DeepCopy.Memory.{Ref, M, pure, ◌>>=◌, copy_ref}
use redis_backup_operator.DeepCopy.Lawful.{Deep}

module _ {X : Kind → Type 0} {F : Type 0} (lib : (k : Kind) → Deep (Cell X F) (X k)) where
  unfoldable pub copy_redis_backup_status :
      RedisBackupStatusStruct X → M (Cell X F) (RedisBackupStatusStruct X)
  copy_redis_backup_status s = do
    job_status ← copy_ref job_statuses_layout pure s.job_status
    conditions ← copy_ref backup_conditions_layout pure s.conditions
    pure (record s { job_status = job_status; conditions = conditions })

  unfoldable pub deep_copy_redis_backup_status :
      Ref (RedisBackupStatusStruct X) → M (Cell X F) (Ref (RedisBackupStatusStruct X))
  unfolding copy_redis_backup_status
  deep_copy_redis_backup_status =
      copy_ref redis_backup_status_blocks_layout copy_redis_backup_status

  unfoldable pub copy_redis_backup : RedisBackupStruct X → M (Cell X F) (RedisBackupStruct X)
  unfolding copy_redis_backup_status
  copy_redis_backup s = do
    metadata ← (lib object_meta).copy s.metadata
    status ← copy_redis_backup_status s.status
    pure (record s { metadata = metadata; status = status })

  unfoldable pub deep_copy_redis_backup :
      Ref (RedisBackupStruct X) → M (Cell X F) (Ref (RedisBackupStruct X))
  unfolding copy_redis_backup
  deep_copy_redis_backup = copy_ref redis_backups_layout copy_redis_backup

  unfoldable pub deep_copy_object_redis_backup :
      Ref (RedisBackupStruct X) → M (Cell X F) (Option RuntimeObject)
  unfolding deep_copy_redis_backup
  deep_copy_object_redis_backup p = do
    c ← deep_copy_redis_backup p
    pure (elim c [ none ↦ none | some q ↦ some (redis_backup_object q) ])

  unfoldable pub copy_redis_backup_list : RedisBackupList X → M (Cell X F) (RedisBackupList X)
  unfolding copy_redis_backup
  copy_redis_backup_list s = do
    metadata ← (lib list_meta).copy s.metadata
    items ← copy_ref redis_backups_layout copy_redis_backup s.items
    pure (record s { metadata = metadata; items = items })

  unfoldable pub deep_copy_redis_backup_list :
      Ref (RedisBackupList X) → M (Cell X F) (Ref (RedisBackupList X))
  unfolding copy_redis_backup_list
  deep_copy_redis_backup_list = copy_ref redis_backup_lists_layout copy_redis_backup_list

  unfoldable pub deep_copy_object_redis_backup_list :
      Ref (RedisBackupList X) → M (Cell X F) (Option RuntimeObject)
  unfolding deep_copy_redis_backup_list
  deep_copy_object_redis_backup_list p = do
    c ← deep_copy_redis_backup_list p
    pure (elim c [ none ↦ none | some q ↦ some (redis_backup_list_object q) ])

  unfoldable pub copy_redis_clone : RedisCloneStruct X → M (Cell X F) (RedisCloneStruct X)
  copy_redis_clone s = do
    metadata ← (lib object_meta).copy s.metadata
    pure (record s { metadata = metadata })

  unfoldable pub deep_copy_redis_clone :
      Ref (RedisCloneStruct X) → M (Cell X F) (Ref (RedisCloneStruct X))
  unfolding copy_redis_clone
  deep_copy_redis_clone = copy_ref redis_clones_layout copy_redis_clone

  unfoldable pub deep_copy_object_redis_clone :
      Ref (RedisCloneStruct X) → M (Cell X F) (Option RuntimeObject)
  unfolding deep_copy_redis_clone
  deep_copy_object_redis_clone p = do
    c ← deep_copy_redis_clone p
    pure (elim c [ none ↦ none | some q ↦ some (redis_clone_object q) ])

  unfoldable pub copy_redis_clone_list : RedisCloneList X → M (Cell X F) (RedisCloneList X)
  unfolding copy_redis_clone
  copy_redis_clone_list s = do
    metadata ← (lib list_meta).copy s.metadata
    items ← copy_ref redis_clones_layout copy_redis_clone s.items
    pure (record s { metadata = metadata; items = items })

  unfoldable pub deep_copy_redis_clone_list :
      Ref (RedisCloneList X) → M (Cell X F) (Ref (RedisCloneList X))
  unfolding copy_redis_clone_list
  deep_copy_redis_clone_list = copy_ref redis_clone_lists_layout copy_redis_clone_list

  unfoldable pub deep_copy_object_redis_clone_list :
      Ref (RedisCloneList X) → M (Cell X F) (Option RuntimeObject)
  unfolding deep_copy_redis_clone_list
  deep_copy_object_redis_clone_list p = do
    c ← deep_copy_redis_clone_list p
    pure (elim c [ none ↦ none | some q ↦ some (redis_clone_list_object q) ])

  unfoldable pub copy_redisoperate : RedisoperateStruct X → M (Cell X F) (RedisoperateStruct X)
  copy_redisoperate s = do
    metadata ← (lib object_meta).copy s.metadata
    pure (record s { metadata = metadata })

  unfoldable pub deep_copy_redisoperate :
      Ref (RedisoperateStruct X) → M (Cell X F) (Ref (RedisoperateStruct X))
  unfolding copy_redisoperate
  deep_copy_redisoperate = copy_ref redisoperates_layout copy_redisoperate

  unfoldable pub deep_copy_object_redisoperate :
      Ref (RedisoperateStruct X) → M (Cell X F) (Option RuntimeObject)
  unfolding deep_copy_redisoperate
  deep_copy_object_redisoperate p = do
    c ← deep_copy_redisoperate p
    pure (elim c [ none ↦ none | some q ↦ some (redisoperate_object q) ])

  unfoldable pub copy_redisoperate_list : RedisoperateList X → M (Cell X F) (RedisoperateList X)
  unfolding copy_redisoperate
  copy_redisoperate_list s = do
    metadata ← (lib list_meta).copy s.metadata
    items ← copy_ref redisoperates_layout copy_redisoperate s.items
    pure (record s { metadata = metadata; items = items })

  unfoldable pub deep_copy_redisoperate_list :
      Ref (RedisoperateList X) → M (Cell X F) (Ref (RedisoperateList X))
  unfolding copy_redisoperate_list
  deep_copy_redisoperate_list = copy_ref redisoperate_lists_layout copy_redisoperate_list

  unfoldable pub deep_copy_object_redisoperate_list :
      Ref (RedisoperateList X) → M (Cell X F) (Option RuntimeObject)
  unfolding deep_copy_redisoperate_list
  deep_copy_object_redisoperate_list p = do
    c ← deep_copy_redisoperate_list p
    pure (elim c [ none ↦ none | some q ↦ some (redisoperate_list_object q) ])

  unfoldable pub deep_copy_job_status : Ref JobStatus → M (Cell X F) (Ref JobStatus)
  deep_copy_job_status = copy_ref job_statuses_layout pure

  unfoldable pub deep_copy_last_backup_info : Ref LastBackupInfo → M (Cell X F) (Ref LastBackupInfo)
  deep_copy_last_backup_info = copy_ref last_backup_infos_layout pure

  unfoldable pub deep_copy_backup_condition :
      Ref BackupCondition → M (Cell X F) (Ref BackupCondition)
  deep_copy_backup_condition = copy_ref backup_conditions_layout pure

  unfoldable pub deep_copy_redis_backup_spec :
      Ref RedisBackupSpec → M (Cell X F) (Ref RedisBackupSpec)
  deep_copy_redis_backup_spec = copy_ref redis_backup_specs_layout pure

  unfoldable pub deep_copy_clone_condition : Ref CloneCondition → M (Cell X F) (Ref CloneCondition)
  deep_copy_clone_condition = copy_ref clone_conditions_layout pure

  unfoldable pub deep_copy_redis_clone_spec : Ref RedisCloneSpec → M (Cell X F) (Ref RedisCloneSpec)
  deep_copy_redis_clone_spec = copy_ref redis_clone_specs_layout pure

  unfoldable pub deep_copy_redis_clone_status :
      Ref RedisCloneStatus → M (Cell X F) (Ref RedisCloneStatus)
  deep_copy_redis_clone_status = copy_ref redis_clone_status_blocks_layout pure

  unfoldable pub deep_copy_redisoperate_spec :
      Ref RedisoperateSpec → M (Cell X F) (Ref RedisoperateSpec)
  deep_copy_redisoperate_spec = copy_ref redisoperate_specs_layout pure

  unfoldable pub deep_copy_redisoperate_status :
      Ref RedisoperateStatus → M (Cell X F) (Ref RedisoperateStatus)
  deep_copy_redisoperate_status = copy_ref redisoperate_statuses_layout pure
