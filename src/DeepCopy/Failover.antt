-- ===== src/DeepCopy/Failover.antt =====
-- The copies of the RedisFailover types: `copy_x` is DeepCopyInto, `deep_copy_x` is DeepCopy,
-- and `deep_copy_object_x` is DeepCopyObject.
use redis_backup_operator.Base.{Option, none, some}
use redis_backup_operator.DeepCopy.Types.{
  RuntimeObject, redis_failover_object, redis_failover_list_object,
}
use redis_backup_operator.DeepCopy.Types.{
  Kind, object_meta, list_meta, claim_spec, claim_status, empty_dir_volume_source, affinity_rules,
  pod_security_context, toleration, env_var, resource_requirements,
}
use redis_backup_operator.DeepCopy.FailoverTypes.{
  RedisCommandRename, AuthSettings, BootstrapSettings, EmbeddedObjectMetadata,
  EmbeddedPersistentVolumeClaim, RedisExporter, RedisFailover, RedisFailoverList, RedisFailoverSpec,
  RedisSettings, RedisStorage, SentinelExporter, SentinelSettings,
}
use redis_backup_operator.DeepCopy.Cells.{Cell}
use redis_backup_operator.DeepCopy.Layouts.{strings_layout, entries_layout}
use redis_backup_operator.DeepCopy.FailoverLayouts.{
  redis_command_renames_layout, auth_settings_blocks_layout, bootstrap_settings_blocks_layout,
  local_object_references_layout, env_vars_layout, resource_blocks_layout, affinity_blocks_layout,
  security_contexts_layout, toleration_blocks_layout, empty_dirs_layout,
  embedded_object_metadatas_layout, embedded_persistent_volume_claims_layout,
  redis_exporters_layout, sentinel_exporters_layout, redis_storages_layout,
  redis_settings_blocks_layout, sentinel_settings_blocks_layout, redis_failover_specs_layout,
  redis_failovers_layout, redis_failover_lists_layout,
}
use redis_backup_operator.DeepCopy.Memory.{Ref, M, pure, ◌>>=◌, copy_ref}
use redis_backup_operator.DeepCopy.Lawful.{Deep}

module _ {X : Kind → Type 0} {F : Type 0} (lib : (k : Kind) → Deep (Cell X F) (X k)) where
  unfoldable pub copy_embedded_object_metadata :
      EmbeddedObjectMetadata X → M (Cell X F) (EmbeddedObjectMetadata X)
  copy_embedded_object_metadata s = do
    labels ← copy_ref entries_layout pure s.labels
    annotations ← copy_ref entries_layout pure s.annotations
    pure (record s { labels = labels; annotations = annotations })

  unfoldable pub deep_copy_embedded_object_metadata :
      Ref (EmbeddedObjectMetadata X) → M (Cell X F) (Ref (EmbeddedObjectMetadata X))
  unfolding copy_embedded_object_metadata
  deep_copy_embedded_object_metadata =
      copy_ref embedded_object_metadatas_layout copy_embedded_object_metadata

  unfoldable pub copy_embedded_persistent_volume_claim :
      EmbeddedPersistentVolumeClaim X → M (Cell X F) (EmbeddedPersistentVolumeClaim X)
  unfolding copy_embedded_object_metadata
  copy_embedded_persistent_volume_claim s = do
    embedded_object_metadata ← copy_embedded_object_metadata s.embedded_object_metadata
    spec ← (lib claim_spec).copy s.spec
    status ← (lib claim_status).copy s.status
    pure (record s {
      embedded_object_metadata = embedded_object_metadata;
      spec = spec;
      status = status;
    })

  unfoldable pub deep_copy_embedded_persistent_volume_claim :
      Ref (EmbeddedPersistentVolumeClaim X) → M (Cell X F) (Ref (EmbeddedPersistentVolumeClaim X))
  unfolding copy_embedded_persistent_volume_claim
  deep_copy_embedded_persistent_volume_claim =
      copy_ref embedded_persistent_volume_claims_layout copy_embedded_persistent_volume_claim

  unfoldable pub copy_redis_exporter : RedisExporter X → M (Cell X F) (RedisExporter X)
  copy_redis_exporter s = do
    args ← copy_ref strings_layout pure s.args
    env ← copy_ref env_vars_layout (lib env_var).copy s.env
    resources ← copy_ref resource_blocks_layout (lib resource_requirements).copy s.resources
    pure (record s { args = args; env = env; resources = resources })

  unfoldable pub deep_copy_redis_exporter :
      Ref (RedisExporter X) → M (Cell X F) (Ref (RedisExporter X))
  unfolding copy_redis_exporter
  deep_copy_redis_exporter = copy_ref redis_exporters_layout copy_redis_exporter

  unfoldable pub copy_sentinel_exporter : SentinelExporter X → M (Cell X F) (SentinelExporter X)
  copy_sentinel_exporter s = do
    args ← copy_ref strings_layout pure s.args
    env ← copy_ref env_vars_layout (lib env_var).copy s.env
    resources ← copy_ref resource_blocks_layout (lib resource_requirements).copy s.resources
    pure (record s { args = args; env = env; resources = resources })

  unfoldable pub deep_copy_sentinel_exporter :
      Ref (SentinelExporter X) → M (Cell X F) (Ref (SentinelExporter X))
  unfolding copy_sentinel_exporter
  deep_copy_sentinel_exporter = copy_ref sentinel_exporters_layout copy_sentinel_exporter

  unfoldable pub copy_redis_storage : RedisStorage X → M (Cell X F) (RedisStorage X)
  unfolding copy_embedded_persistent_volume_claim
  copy_redis_storage s = do
    empty_dir ← copy_ref empty_dirs_layout (lib empty_dir_volume_source).copy s.empty_dir
    persistent_volume_claim ←
        copy_ref embedded_persistent_volume_claims_layout copy_embedded_persistent_volume_claim
          s.persistent_volume_claim
    pure (record s { empty_dir = empty_dir; persistent_volume_claim = persistent_volume_claim })

  unfoldable pub deep_copy_redis_storage :
      Ref (RedisStorage X) → M (Cell X F) (Ref (RedisStorage X))
  unfolding copy_redis_storage
  deep_copy_redis_storage = copy_ref redis_storages_layout copy_redis_storage

  unfoldable pub copy_redis_settings : RedisSettings X → M (Cell X F) (RedisSettings X)
  unfolding copy_redis_exporter copy_redis_storage
  copy_redis_settings s = do
    resources ← (lib resource_requirements).copy s.resources
    custom_config ← copy_ref strings_layout pure s.custom_config
    custom_command_renames ← copy_ref redis_command_renames_layout pure s.custom_command_renames
    command ← copy_ref strings_layout pure s.command
    storage ← copy_redis_storage s.storage
    exporter ← copy_redis_exporter s.exporter
    affinity ← copy_ref affinity_blocks_layout (lib affinity_rules).copy s.affinity
    security_context ←
        copy_ref security_contexts_layout (lib pod_security_context).copy s.security_context
    image_pull_secrets ← copy_ref local_object_references_layout pure s.image_pull_secrets
    tolerations ← copy_ref toleration_blocks_layout (lib toleration).copy s.tolerations
    node_selector ← copy_ref entries_layout pure s.node_selector
    pod_annotations ← copy_ref entries_layout pure s.pod_annotations
    service_annotations ← copy_ref entries_layout pure s.service_annotations
    pure (record s {
      resources = resources;
      custom_config = custom_config;
      custom_command_renames = custom_command_renames;
      command = command;
      storage = storage;
      exporter = exporter;
      affinity = affinity;
      security_context = security_context;
      image_pull_secrets = image_pull_secrets;
      tolerations = tolerations;
      node_selector = node_selector;
      pod_annotations = pod_annotations;
      service_annotations = service_annotations;
    })

  unfoldable pub deep_copy_redis_settings :
      Ref (RedisSettings X) → M (Cell X F) (Ref (RedisSettings X))
  unfolding copy_redis_settings
  deep_copy_redis_settings = copy_ref redis_settings_blocks_layout copy_redis_settings

  unfoldable pub copy_sentinel_settings : SentinelSettings X → M (Cell X F) (SentinelSettings X)
  unfolding copy_sentinel_exporter
  copy_sentinel_settings s = do
    resources ← (lib resource_requirements).copy s.resources
    custom_config ← copy_ref strings_layout pure s.custom_config
    command ← copy_ref strings_layout pure s.command
    affinity ← copy_ref affinity_blocks_layout (lib affinity_rules).copy s.affinity
    security_context ←
        copy_ref security_contexts_layout (lib pod_security_context).copy s.security_context
    image_pull_secrets ← copy_ref local_object_references_layout pure s.image_pull_secrets
    tolerations ← copy_ref toleration_blocks_layout (lib toleration).copy s.tolerations
    node_selector ← copy_ref entries_layout pure s.node_selector
    pod_annotations ← copy_ref entries_layout pure s.pod_annotations
    service_annotations ← copy_ref entries_layout pure s.service_annotations
    exporter ← copy_sentinel_exporter s.exporter
    pure (record s {
      resources = resources;
      custom_config = custom_config;
      command = command;
      affinity = affinity;
      security_context = security_context;
      image_pull_secrets = image_pull_secrets;
      tolerations = tolerations;
      node_selector = node_selector;
      pod_annotations = pod_annotations;
      service_annotations = service_annotations;
      exporter = exporter;
    })

  unfoldable pub deep_copy_sentinel_settings :
      Ref (SentinelSettings X) → M (Cell X F) (Ref (SentinelSettings X))
  unfolding copy_sentinel_settings
  deep_copy_sentinel_settings = copy_ref sentinel_settings_blocks_layout copy_sentinel_settings

  unfoldable pub copy_redis_failover_spec : RedisFailoverSpec X → M (Cell X F) (RedisFailoverSpec X)
  unfolding copy_redis_settings copy_sentinel_settings
  copy_redis_failover_spec s = do
    redis ← copy_redis_settings s.redis
    sentinel ← copy_sentinel_settings s.sentinel
    label_whitelist ← copy_ref strings_layout pure s.label_whitelist
    bootstrap_node ← copy_ref bootstrap_settings_blocks_layout pure s.bootstrap_node
    pure (record s {
      redis = redis;
      sentinel = sentinel;
      label_whitelist = label_whitelist;
      bootstrap_node = bootstrap_node;
    })

  unfoldable pub deep_copy_redis_failover_spec :
      Ref (RedisFailoverSpec X) → M (Cell X F) (Ref (RedisFailoverSpec X))
  unfolding copy_redis_failover_spec
  deep_copy_redis_failover_spec = copy_ref redis_failover_specs_layout copy_redis_failover_spec

  unfoldable pub copy_redis_failover : RedisFailover X → M (Cell X F) (RedisFailover X)
  unfolding copy_redis_failover_spec
  copy_redis_failover s = do
    metadata ← (lib object_meta).copy s.metadata
    spec ← copy_redis_failover_spec s.spec
    pure (record s { metadata = metadata; spec = spec })

  unfoldable pub deep_copy_redis_failover :
      Ref (RedisFailover X) → M (Cell X F) (Ref (RedisFailover X))
  unfolding copy_redis_failover
  deep_copy_redis_failover = copy_ref redis_failovers_layout copy_redis_failover

  unfoldable pub deep_copy_object_redis_failover :
      Ref (RedisFailover X) → M (Cell X F) (Option RuntimeObject)
  unfolding deep_copy_redis_failover
  deep_copy_object_redis_failover p = do
    c ← deep_copy_redis_failover p
    pure (elim c [ none ↦ none | some q ↦ some (redis_failover_object q) ])

  unfoldable pub copy_redis_failover_list : RedisFailoverList X → M (Cell X F) (RedisFailoverList X)
  unfolding copy_redis_failover
  copy_redis_failover_list s = do
    metadata ← (lib list_meta).copy s.metadata
    items ← copy_ref redis_failovers_layout copy_redis_failover s.items
    pure (record s { metadata = metadata; items = items })

  unfoldable pub deep_copy_redis_failover_list :
      Ref (RedisFailoverList X) → M (Cell X F) (Ref (RedisFailoverList X))
  unfolding copy_redis_failover_list
  deep_copy_redis_failover_list = copy_ref redis_failover_lists_layout copy_redis_failover_list

  unfoldable pub deep_copy_object_redis_failover_list :
      Ref (RedisFailoverList X) → M (Cell X F) (Option RuntimeObject)
  unfolding deep_copy_redis_failover_list
  deep_copy_object_redis_failover_list p = do
    c ← deep_copy_redis_failover_list p
    pure (elim c [ none ↦ none | some q ↦ some (redis_failover_list_object q) ])

  unfoldable pub deep_copy_auth_settings : Ref AuthSettings → M (Cell X F) (Ref AuthSettings)
  deep_copy_auth_settings = copy_ref auth_settings_blocks_layout pure

  unfoldable pub deep_copy_bootstrap_settings :
      Ref BootstrapSettings → M (Cell X F) (Ref BootstrapSettings)
  deep_copy_bootstrap_settings = copy_ref bootstrap_settings_blocks_layout pure

  unfoldable pub deep_copy_redis_command_rename :
      Ref RedisCommandRename → M (Cell X F) (Ref RedisCommandRename)
  deep_copy_redis_command_rename = copy_ref redis_command_renames_layout pure
