-- ===== src/DeepCopy/FailoverLayouts.antt =====
-- How blocks of the structs in the RedisFailover types are kept.
use redis_backup_operator.Base.{Option, none, some, List, refl}
use redis_backup_operator.DeepCopy.Memory.{Layout}
use redis_backup_operator.DeepCopy.Types.{
  Kind, empty_dir_volume_source, affinity_rules, pod_security_context, toleration, env_var,
  resource_requirements,
}
use redis_backup_operator.DeepCopy.FailoverTypes.{
  RedisCommandRename, AuthSettings, BootstrapSettings, LocalObjectReference, EmbeddedObjectMetadata,
  EmbeddedPersistentVolumeClaim, RedisExporter, RedisFailover, RedisFailoverList, RedisFailoverSpec,
  RedisSettings, RedisStorage, SentinelExporter, SentinelSettings,
}
use redis_backup_operator.DeepCopy.Cells.{
  Cell, redis_command_renames, auth_settings_blocks, bootstrap_settings_blocks,
  local_object_references, env_vars, resource_blocks, affinity_blocks, security_contexts,
  toleration_blocks, empty_dirs, embedded_object_metadatas, embedded_persistent_volume_claims,
  redis_exporters, sentinel_exporters, redis_storages, redis_settings_blocks,
  sentinel_settings_blocks, redis_failover_specs, redis_failovers, redis_failover_lists,
}

module _ {X : Kind → Type 0} {F : Type 0} where
  abbrev pub as_redis_command_renames : Cell X F → Option (List (RedisCommandRename))
  as_redis_command_renames (redis_command_renames xs) = some xs
  as_redis_command_renames _ = none

  abbrev pub redis_command_renames_layout : Layout (Cell X F) (RedisCommandRename)
  redis_command_renames_layout = record {
    block = redis_command_renames;
    elements = as_redis_command_renames;
    elements_block = λ xs. refl;
  }

  abbrev pub as_auth_settings_blocks : Cell X F → Option (List (AuthSettings))
  as_auth_settings_blocks (auth_settings_blocks xs) = some xs
  as_auth_settings_blocks _ = none

  abbrev pub auth_settings_blocks_layout : Layout (Cell X F) (AuthSettings)
  auth_settings_blocks_layout = record {
    block = auth_settings_blocks;
    elements = as_auth_settings_blocks;
    elements_block = λ xs. refl;
  }

  abbrev pub as_bootstrap_settings_blocks : Cell X F → Option (List (BootstrapSettings))
  as_bootstrap_settings_blocks (bootstrap_settings_blocks xs) = some xs
  as_bootstrap_settings_blocks _ = none

  abbrev pub bootstrap_settings_blocks_layout : Layout (Cell X F) (BootstrapSettings)
  bootstrap_settings_blocks_layout = record {
    block = bootstrap_settings_blocks;
    elements = as_bootstrap_settings_blocks;
    elements_block = λ xs. refl;
  }

  abbrev pub as_local_object_references : Cell X F → Option (List (LocalObjectReference))
  as_local_object_references (local_object_references xs) = some xs
  as_local_object_references _ = none

  abbrev pub local_object_references_layout : Layout (Cell X F) (LocalObjectReference)
  local_object_references_layout = record {
    block = local_object_references;
    elements = as_local_object_references;
    elements_block = λ xs. refl;
  }

  abbrev pub as_env_vars : Cell X F → Option (List (X env_var))
  as_env_vars (env_vars xs) = some xs
  as_env_vars _ = none

  abbrev pub env_vars_layout : Layout (Cell X F) (X env_var)
  env_vars_layout = record { block = env_vars; elements = as_env_vars; elements_block = λ xs. refl }

  abbrev pub as_resource_blocks : Cell X F → Option (List (X resource_requirements))
  as_resource_blocks (resource_blocks xs) = some xs
  as_resource_blocks _ = none

  abbrev pub resource_blocks_layout : Layout (Cell X F) (X resource_requirements)
  resource_blocks_layout = record {
    block = resource_blocks;
    elements = as_resource_blocks;
    elements_block = λ xs. refl;
  }

  abbrev pub as_affinity_blocks : Cell X F → Option (List (X affinity_rules))
  as_affinity_blocks (affinity_blocks xs) = some xs
  as_affinity_blocks _ = none

  abbrev pub affinity_blocks_layout : Layout (Cell X F) (X affinity_rules)
  affinity_blocks_layout = record {
    block = affinity_blocks;
    elements = as_affinity_blocks;
    elements_block = λ xs. refl;
  }

  abbrev pub as_security_contexts : Cell X F → Option (List (X pod_security_context))
  as_security_contexts (security_contexts xs) = some xs
  as_security_contexts _ = none

  abbrev pub security_contexts_layout : Layout (Cell X F) (X pod_security_context)
  security_contexts_layout = record {
    block = security_contexts;
    elements = as_security_contexts;
    elements_block = λ xs. refl;
  }

  abbrev pub as_toleration_blocks : Cell X F → Option (List (X toleration))
  as_toleration_blocks (toleration_blocks xs) = some xs
  as_toleration_blocks _ = none

  abbrev pub toleration_blocks_layout : Layout (Cell X F) (X toleration)
  toleration_blocks_layout = record {
    block = toleration_blocks;
    elements = as_toleration_blocks;
    elements_block = λ xs. refl;
  }

  abbrev pub as_empty_dirs : Cell X F → Option (List (X empty_dir_volume_source))
  as_empty_dirs (empty_dirs xs) = some xs
  as_empty_dirs _ = none

  abbrev pub empty_dirs_layout : Layout (Cell X F) (X empty_dir_volume_source)
  empty_dirs_layout = record {
    block = empty_dirs;
    elements = as_empty_dirs;
    elements_block = λ xs. refl;
  }

  abbrev pub as_embedded_object_metadatas : Cell X F → Option (List (EmbeddedObjectMetadata X))
  as_embedded_object_metadatas (embedded_object_metadatas xs) = some xs
  as_embedded_object_metadatas _ = none

  abbrev pub embedded_object_metadatas_layout : Layout (Cell X F) (EmbeddedObjectMetadata X)
  embedded_object_metadatas_layout = record {
    block = embedded_object_metadatas;
    elements = as_embedded_object_metadatas;
    elements_block = λ xs. refl;
  }

  abbrev pub as_embedded_persistent_volume_claims :
      Cell X F → Option (List (EmbeddedPersistentVolumeClaim X))
  as_embedded_persistent_volume_claims (embedded_persistent_volume_claims xs) = some xs
  as_embedded_persistent_volume_claims _ = none

  abbrev pub embedded_persistent_volume_claims_layout :
      Layout (Cell X F) (EmbeddedPersistentVolumeClaim X)
  embedded_persistent_volume_claims_layout = record {
    block = embedded_persistent_volume_claims;
    elements = as_embedded_persistent_volume_claims;
    elements_block = λ xs. refl;
  }

  abbrev pub as_redis_exporters : Cell X F → Option (List (RedisExporter X))
  as_redis_exporters (redis_exporters xs) = some xs
  as_redis_exporters _ = none

  abbrev pub redis_exporters_layout : Layout (Cell X F) (RedisExporter X)
  redis_exporters_layout = record {
    block = redis_exporters;
    elements = as_redis_exporters;
    elements_block = λ xs. refl;
  }

  abbrev pub as_sentinel_exporters : Cell X F → Option (List (SentinelExporter X))
  as_sentinel_exporters (sentinel_exporters xs) = some xs
  as_sentinel_exporters _ = none

  abbrev pub sentinel_exporters_layout : Layout (Cell X F) (SentinelExporter X)
  sentinel_exporters_layout = record {
    block = sentinel_exporters;
    elements = as_sentinel_exporters;
    elements_block = λ xs. refl;
  }

  abbrev pub as_redis_storages : Cell X F → Option (List (RedisStorage X))
  as_redis_storages (redis_storages xs) = some xs
  as_redis_storages _ = none

  abbrev pub redis_storages_layout : Layout (Cell X F) (RedisStorage X)
  redis_storages_layout = record {
    block = redis_storages;
    elements = as_redis_storages;
    elements_block = λ xs. refl;
  }

  abbrev pub as_redis_settings_blocks : Cell X F → Option (List (RedisSettings X))
  as_redis_settings_blocks (redis_settings_blocks xs) = some xs
  as_redis_settings_blocks _ = none

  abbrev pub redis_settings_blocks_layout : Layout (Cell X F) (RedisSettings X)
  redis_settings_blocks_layout = record {
    block = redis_settings_blocks;
    elements = as_redis_settings_blocks;
    elements_block = λ xs. refl;
  }

  abbrev pub as_sentinel_settings_blocks : Cell X F → Option (List (SentinelSettings X))
  as_sentinel_settings_blocks (sentinel_settings_blocks xs) = some xs
  as_sentinel_settings_blocks _ = none

  abbrev pub sentinel_settings_blocks_layout : Layout (Cell X F) (SentinelSettings X)
  sentinel_settings_blocks_layout = record {
    block = sentinel_settings_blocks;
    elements = as_sentinel_settings_blocks;
    elements_block = λ xs. refl;
  }

  abbrev pub as_redis_failover_specs : Cell X F → Option (List (RedisFailoverSpec X))
  as_redis_failover_specs (redis_failover_specs xs) = some xs
  as_redis_failover_specs _ = none

  abbrev pub redis_failover_specs_layout : Layout (Cell X F) (RedisFailoverSpec X)
  redis_failover_specs_layout = record {
    block = redis_failover_specs;
    elements = as_redis_failover_specs;
    elements_block = λ xs. refl;
  }

  abbrev pub as_redis_failovers : Cell X F → Option (List (RedisFailover X))
  as_redis_failovers (redis_failovers xs) = some xs
  as_redis_failovers _ = none

  abbrev pub redis_failovers_layout : Layout (Cell X F) (RedisFailover X)
  redis_failovers_layout = record {
    block = redis_failovers;
    elements = as_redis_failovers;
    elements_block = λ xs. refl;
  }

  abbrev pub as_redis_failover_lists : Cell X F → Option (List (RedisFailoverList X))
  as_redis_failover_lists (redis_failover_lists xs) = some xs
  as_redis_failover_lists _ = none

  abbrev pub redis_failover_lists_layout : Layout (Cell X F) (RedisFailoverList X)
  redis_failover_lists_layout = record {
    block = redis_failover_lists;
    elements = as_redis_failover_lists;
    elements_block = λ xs. refl;
  }
