-- ===== src/DeepCopy/PartLaws.antt =====
-- The copies of the structs inside of the RedisFailover settings are lawful.
use redis_backup_operator.Base.{◌≡◌, refl, String, Bool}
use redis_backup_operator.DeepCopy.Types.{
  Kind, claim_spec, claim_status, empty_dir_volume_source, env_var, resource_requirements, TypeMeta,
}
use redis_backup_operator.DeepCopy.FailoverTypes.{
  EmbeddedObjectMetadata, EmbeddedPersistentVolumeClaim, RedisExporter, RedisStorage,
  SentinelExporter,
}
use redis_backup_operator.DeepCopy.Cells.{Cell}
use redis_backup_operator.DeepCopy.Layouts.{strings_layout, entries_layout}
use redis_backup_operator.DeepCopy.FailoverLayouts.{
  env_vars_layout, resource_blocks_layout, empty_dirs_layout,
  embedded_persistent_volume_claims_layout,
}
use redis_backup_operator.DeepCopy.Memory.{Memory, Ref}
use redis_backup_operator.DeepCopy.Lawful.{Deep, flat, both, via}
use redis_backup_operator.DeepCopy.Blocks.{ref}
use redis_backup_operator.DeepCopy.Failover.{
  copy_embedded_object_metadata, copy_embedded_persistent_volume_claim, copy_redis_exporter,
  copy_sentinel_exporter, copy_redis_storage,
}

module _ {X : Kind → Type 0} {F : Type 0} (lib : (k : Kind) → Deep (Cell X F) (X k)) where
  abbrev pub embedded_object_metadata_fields :
      EmbeddedObjectMetadata X → String × ((Ref (String × String)) × (Ref (String × String)))
  embedded_object_metadata_fields s = (s.name, (s.labels, s.annotations))

  abbrev pub embedded_object_metadata_parts :
      Deep (Cell X F) (String × ((Ref (String × String)) × (Ref (String × String))))
  embedded_object_metadata_parts =
      both (flat {A = String}) (both (ref flat entries_layout) (ref flat entries_layout))

  pub copy_embedded_object_metadata-fields :
      (s : EmbeddedObjectMetadata X) (h : Memory (Cell X F))
      → (
        embedded_object_metadata_fields (copy_embedded_object_metadata lib s h).0,
        (copy_embedded_object_metadata lib s h).1,
      )
        ≡ embedded_object_metadata_parts.copy (embedded_object_metadata_fields s) h
  unfolding copy_embedded_object_metadata
  copy_embedded_object_metadata-fields s h = refl

  abbrev pub embedded_object_metadata_deep : Deep (Cell X F) (EmbeddedObjectMetadata X)
  embedded_object_metadata_deep =
      via embedded_object_metadata_fields embedded_object_metadata_parts
        (copy_embedded_object_metadata lib) copy_embedded_object_metadata-fields

  abbrev pub embedded_persistent_volume_claim_fields :
      EmbeddedPersistentVolumeClaim X
      → TypeMeta × ((EmbeddedObjectMetadata X) × ((X claim_spec) × (X claim_status)))
  embedded_persistent_volume_claim_fields s =
      (s.type_meta, (s.embedded_object_metadata, (s.spec, s.status)))

  abbrev pub embedded_persistent_volume_claim_parts :
      Deep
        (Cell X F)
        (TypeMeta × ((EmbeddedObjectMetadata X) × ((X claim_spec) × (X claim_status))))
  embedded_persistent_volume_claim_parts =
      both (flat {A = TypeMeta})
        (both embedded_object_metadata_deep (both (lib claim_spec) (lib claim_status)))

  pub copy_embedded_persistent_volume_claim-fields :
      (s : EmbeddedPersistentVolumeClaim X) (h : Memory (Cell X F))
      → (
        embedded_persistent_volume_claim_fields (copy_embedded_persistent_volume_claim lib s h).0,
        (copy_embedded_persistent_volume_claim lib s h).1,
      )
        ≡ embedded_persistent_volume_claim_parts.copy (embedded_persistent_volume_claim_fields s) h
  unfolding copy_embedded_persistent_volume_claim
  copy_embedded_persistent_volume_claim-fields s h = refl

  abbrev pub embedded_persistent_volume_claim_deep :
      Deep (Cell X F) (EmbeddedPersistentVolumeClaim X)
  embedded_persistent_volume_claim_deep =
      via embedded_persistent_volume_claim_fields embedded_persistent_volume_claim_parts
        (copy_embedded_persistent_volume_claim lib) copy_embedded_persistent_volume_claim-fields

  abbrev pub redis_exporter_fields :
      RedisExporter X
      → (Bool × String × String)
        × ((Ref String) × ((Ref (X env_var)) × (Ref (X resource_requirements))))
  redis_exporter_fields s =
      ((s.enabled, s.image, s.image_pull_policy), (s.args, (s.env, s.resources)))

  abbrev pub redis_exporter_parts : Deep (Cell X F) (
      (Bool × String × String)
      × ((Ref String) × ((Ref (X env_var)) × (Ref (X resource_requirements)))))
  redis_exporter_parts = both (flat {A = Bool × String × String}) (
      both (ref flat strings_layout) (
        both (ref (lib env_var) env_vars_layout)
          (ref (lib resource_requirements) resource_blocks_layout)))

  pub copy_redis_exporter-fields :
      (s : RedisExporter X) (h : Memory (Cell X F))
      → (redis_exporter_fields (copy_redis_exporter lib s h).0, (copy_redis_exporter lib s h).1)
        ≡ redis_exporter_parts.copy (redis_exporter_fields s) h
  unfolding copy_redis_exporter
  copy_redis_exporter-fields s h = refl

  abbrev pub redis_exporter_deep : Deep (Cell X F) (RedisExporter X)
  redis_exporter_deep =
      via redis_exporter_fields redis_exporter_parts (copy_redis_exporter lib)
        copy_redis_exporter-fields

  abbrev pub sentinel_exporter_fields :
      SentinelExporter X
      → (Bool × String × String)
        × ((Ref String) × ((Ref (X env_var)) × (Ref (X resource_requirements))))
  sentinel_exporter_fields s =
      ((s.enabled, s.image, s.image_pull_policy), (s.args, (s.env, s.resources)))

  abbrev pub sentinel_exporter_parts : Deep (Cell X F) (
      (Bool × String × String)
      × ((Ref String) × ((Ref (X env_var)) × (Ref (X resource_requirements)))))
  sentinel_exporter_parts = both (flat {A = Bool × String × String}) (
      both (ref flat strings_layout) (
        both (ref (lib env_var) env_vars_layout)
          (ref (lib resource_requirements) resource_blocks_layout)))

  pub copy_sentinel_exporter-fields :
      (s : SentinelExporter X) (h : Memory (Cell X F))
      → (
        sentinel_exporter_fields (copy_sentinel_exporter lib s h).0,
        (copy_sentinel_exporter lib s h).1,
      )
        ≡ sentinel_exporter_parts.copy (sentinel_exporter_fields s) h
  unfolding copy_sentinel_exporter
  copy_sentinel_exporter-fields s h = refl

  abbrev pub sentinel_exporter_deep : Deep (Cell X F) (SentinelExporter X)
  sentinel_exporter_deep =
      via sentinel_exporter_fields sentinel_exporter_parts (copy_sentinel_exporter lib)
        copy_sentinel_exporter-fields

  abbrev pub redis_storage_fields :
      RedisStorage X
      → Bool × ((Ref (X empty_dir_volume_source)) × (Ref (EmbeddedPersistentVolumeClaim X)))
  redis_storage_fields s = (s.keep_after_deletion, (s.empty_dir, s.persistent_volume_claim))

  abbrev pub redis_storage_parts :
      Deep
        (Cell X F)
        (Bool × ((Ref (X empty_dir_volume_source)) × (Ref (EmbeddedPersistentVolumeClaim X))))
  redis_storage_parts = both (flat {A = Bool}) (
      both (ref (lib empty_dir_volume_source) empty_dirs_layout)
        (ref embedded_persistent_volume_claim_deep embedded_persistent_volume_claims_layout))

  pub copy_redis_storage-fields :
      (s : RedisStorage X) (h : Memory (Cell X F))
      → (redis_storage_fields (copy_redis_storage lib s h).0, (copy_redis_storage lib s h).1)
        ≡ redis_storage_parts.copy (redis_storage_fields s) h
  unfolding copy_redis_storage
  copy_redis_storage-fields s h = refl

  abbrev pub redis_storage_deep : Deep (Cell X F) (RedisStorage X)
  redis_storage_deep =
      via redis_storage_fields redis_storage_parts (copy_redis_storage lib)
        copy_redis_storage-fields
