-- ===== src/DeepCopy/FailoverLaws.antt =====
-- The copies of the RedisFailover types are lawful.
use redis_backup_operator.Base.{◌≡◌, refl, String, Bool, ℤ}
use redis_backup_operator.DeepCopy.Types.{
  Kind, object_meta, list_meta, affinity_rules, pod_security_context, toleration,
  resource_requirements, TypeMeta,
}
use redis_backup_operator.DeepCopy.FailoverTypes.{
  RedisCommandRename, AuthSettings, BootstrapSettings, LocalObjectReference, RedisExporter,
  RedisFailover, RedisFailoverList, RedisFailoverSpec, RedisSettings, RedisStorage,
  SentinelExporter, SentinelSettings,
}
use redis_backup_operator.DeepCopy.Cells.{Cell}
use redis_backup_operator.DeepCopy.Layouts.{strings_layout, entries_layout}
use redis_backup_operator.DeepCopy.FailoverLayouts.{
  redis_command_renames_layout, bootstrap_settings_blocks_layout, local_object_references_layout,
  affinity_blocks_layout, security_contexts_layout, toleration_blocks_layout,
  redis_failovers_layout,
}
use redis_backup_operator.DeepCopy.Memory.{Memory, Ref}
use redis_backup_operator.DeepCopy.Lawful.{Deep, flat, both, via}
use redis_backup_operator.DeepCopy.Blocks.{ref}
use redis_backup_operator.DeepCopy.Failover.{
  copy_redis_settings, copy_sentinel_settings, copy_redis_failover_spec, copy_redis_failover,
  copy_redis_failover_list,
}
use redis_backup_operator.DeepCopy.PartLaws.{
  redis_exporter_deep, sentinel_exporter_deep, redis_storage_deep,
}

module _ {X : Kind → Type 0} {F : Type 0} (lib : (k : Kind) → Deep (Cell X F) (X k)) where
  abbrev pub redis_settings_fields :
      RedisSettings X
      → (String × String × ℤ × String × Bool × String × String × String × ℤ)
        × ((X resource_requirements)
            × ((Ref String)
                × ((Ref RedisCommandRename)
                    × ((Ref String)
                        × ((RedisStorage X)
                            × ((RedisExporter X)
                                × ((Ref (X affinity_rules))
                                    × ((Ref (X pod_security_context))
                                        × ((Ref LocalObjectReference)
                                            × ((Ref (X toleration))
                                                × ((Ref (String × String))
                                                    × ((Ref (String × String))
                                                        × (Ref (String × String))))))))))))))
  redis_settings_fields s = (
    (
      s.image, s.image_pull_policy, s.replicas, s.shutdown_config_map, s.host_network, s.dns_policy,
      s.priority_class_name, s.service_account_name, s.termination_grace_period_seconds,
    ),
    (
      s.resources,
      (
        s.custom_config,
        (
          s.custom_command_renames,
          (
            s.command,
            (
              s.storage,
              (
                s.exporter,
                (
                  s.affinity,
                  (
                    s.security_context,
                    (
                      s.image_pull_secrets,
                      (
                        s.tolerations,
                        (s.node_selector, (s.pod_annotations, s.service_annotations)),
                      ),
                    ),
                  ),
                ),
              ),
            ),
          ),
        ),
      ),
    ),
  )

  abbrev pub redis_settings_parts : Deep (Cell X F) (
      (String × String × ℤ × String × Bool × String × String × String × ℤ)
      × ((X resource_requirements)
          × ((Ref String)
              × ((Ref RedisCommandRename)
                  × ((Ref String)
                      × ((RedisStorage X)
                          × ((RedisExporter X)
                              × ((Ref (X affinity_rules))
                                  × ((Ref (X pod_security_context))
                                      × ((Ref LocalObjectReference)
                                          × ((Ref (X toleration))
                                              × ((Ref (String × String))
                                                  × ((Ref (String × String))
                                                      × (Ref (String × String)))))))))))))))
  redis_settings_parts =
      both (flat {A = String × String × ℤ × String × Bool × String × String × String × ℤ}) (
        both (lib resource_requirements) (
          both (ref flat strings_layout) (
            both (ref flat redis_command_renames_layout) (
              both (ref flat strings_layout) (
                both (redis_storage_deep lib) (
                  both (redis_exporter_deep lib) (
                    both (ref (lib affinity_rules) affinity_blocks_layout) (
                      both (ref (lib pod_security_context) security_contexts_layout) (
                        both (ref flat local_object_references_layout) (
                          both (ref (lib toleration) toleration_blocks_layout) (
                            both (ref flat entries_layout)
                              (both (ref flat entries_layout) (ref flat entries_layout)))))))))))))

  pub copy_redis_settings-fields :
      (s : RedisSettings X) (h : Memory (Cell X F))
      → (redis_settings_fields (copy_redis_settings lib s h).0, (copy_redis_settings lib s h).1)
        ≡ redis_settings_parts.copy (redis_settings_fields s) h
  unfolding copy_redis_settings
  copy_redis_settings-fields s h = refl

  abbrev pub redis_settings_deep : Deep (Cell X F) (RedisSettings X)
  redis_settings_deep =
      via redis_settings_fields redis_settings_parts (copy_redis_settings lib)
        copy_redis_settings-fields

  abbrev pub sentinel_settings_fields :
      SentinelSettings X
      → (String × String × ℤ × Bool × String × String × String × String)
        × ((X resource_requirements)
            × ((Ref String)
                × ((Ref String)
                    × ((Ref (X affinity_rules))
                        × ((Ref (X pod_security_context))
                            × ((Ref LocalObjectReference)
                                × ((Ref (X toleration))
                                    × ((Ref (String × String))
                                        × ((Ref (String × String))
                                            × ((Ref (String × String))
                                                × (SentinelExporter X)))))))))))
  sentinel_settings_fields s = (
    (
      s.image, s.image_pull_policy, s.replicas, s.host_network, s.dns_policy, s.priority_class_name,
      s.service_account_name, s.master_name,
    ),
    (
      s.resources,
      (
        s.custom_config,
        (
          s.command,
          (
            s.affinity,
            (
              s.security_context,
              (
                s.image_pull_secrets,
                (
                  s.tolerations,
                  (s.node_selector, (s.pod_annotations, (s.service_annotations, s.exporter))),
                ),
              ),
            ),
          ),
        ),
      ),
    ),
  )

  abbrev pub sentinel_settings_parts : Deep (Cell X F) (
      (String × String × ℤ × Bool × String × String × String × String)
      × ((X resource_requirements)
          × ((Ref String)
              × ((Ref String)
                  × ((Ref (X affinity_rules))
                      × ((Ref (X pod_security_context))
                          × ((Ref LocalObjectReference)
                              × ((Ref (X toleration))
                                  × ((Ref (String × String))
                                      × ((Ref (String × String))
                                          × ((Ref (String × String))
                                              × (SentinelExporter X))))))))))))
  sentinel_settings_parts =
      both (flat {A = String × String × ℤ × Bool × String × String × String × String}) (
        both (lib resource_requirements) (
          both (ref flat strings_layout) (
            both (ref flat strings_layout) (
              both (ref (lib affinity_rules) affinity_blocks_layout) (
                both (ref (lib pod_security_context) security_contexts_layout) (
                  both (ref flat local_object_references_layout) (
                    both (ref (lib toleration) toleration_blocks_layout) (
                      both (ref flat entries_layout) (
                        both (ref flat entries_layout)
                          (both (ref flat entries_layout) (sentinel_exporter_deep lib)))))))))))

  pub copy_sentinel_settings-fields :
      (s : SentinelSettings X) (h : Memory (Cell X F))
      → (
        sentinel_settings_fields (copy_sentinel_settings lib s h).0,
        (copy_sentinel_settings lib s h).1,
      )
        ≡ sentinel_settings_parts.copy (sentinel_settings_fields s) h
  unfolding copy_sentinel_settings
  copy_sentinel_settings-fields s h = refl

  abbrev pub sentinel_settings_deep : Deep (Cell X F) (SentinelSettings X)
  sentinel_settings_deep =
      via sentinel_settings_fields sentinel_settings_parts (copy_sentinel_settings lib)
        copy_sentinel_settings-fields

  abbrev pub redis_failover_spec_fields :
      RedisFailoverSpec X
      → AuthSettings
        × ((RedisSettings X) × ((SentinelSettings X) × ((Ref String) × (Ref BootstrapSettings))))
  redis_failover_spec_fields s =
      (s.auth, (s.redis, (s.sentinel, (s.label_whitelist, s.bootstrap_node))))

  abbrev pub redis_failover_spec_parts : Deep (Cell X F) (
      AuthSettings
      × ((RedisSettings X) × ((SentinelSettings X) × ((Ref String) × (Ref BootstrapSettings)))))
  redis_failover_spec_parts = both (flat {A = AuthSettings}) (
      both redis_settings_deep (
        both sentinel_settings_deep
          (both (ref flat strings_layout) (ref flat bootstrap_settings_blocks_layout))))

  pub copy_redis_failover_spec-fields :
      (s : RedisFailoverSpec X) (h : Memory (Cell X F))
      → (
        redis_failover_spec_fields (copy_redis_failover_spec lib s h).0,
        (copy_redis_failover_spec lib s h).1,
      )
        ≡ redis_failover_spec_parts.copy (redis_failover_spec_fields s) h
  unfolding copy_redis_failover_spec
  copy_redis_failover_spec-fields s h = refl

  abbrev pub redis_failover_spec_deep : Deep (Cell X F) (RedisFailoverSpec X)
  redis_failover_spec_deep =
      via redis_failover_spec_fields redis_failover_spec_parts (copy_redis_failover_spec lib)
        copy_redis_failover_spec-fields

  abbrev pub redis_failover_fields :
      RedisFailover X → TypeMeta × ((X object_meta) × (RedisFailoverSpec X))
  redis_failover_fields s = (s.type_meta, (s.metadata, s.spec))

  abbrev pub redis_failover_parts :
      Deep (Cell X F) (TypeMeta × ((X object_meta) × (RedisFailoverSpec X)))
  redis_failover_parts =
      both (flat {A = TypeMeta}) (both (lib object_meta) redis_failover_spec_deep)

  pub copy_redis_failover-fields :
      (s : RedisFailover X) (h : Memory (Cell X F))
      → (redis_failover_fields (copy_redis_failover lib s h).0, (copy_redis_failover lib s h).1)
        ≡ redis_failover_parts.copy (redis_failover_fields s) h
  unfolding copy_redis_failover
  copy_redis_failover-fields s h = refl

  abbrev pub redis_failover_deep : Deep (Cell X F) (RedisFailover X)
  redis_failover_deep =
      via redis_failover_fields redis_failover_parts (copy_redis_failover lib)
        copy_redis_failover-fields

  abbrev pub redis_failover_list_fields :
      RedisFailoverList X → TypeMeta × ((X list_meta) × (Ref (RedisFailover X)))
  redis_failover_list_fields s = (s.type_meta, (s.metadata, s.items))

  abbrev pub redis_failover_list_parts :
      Deep (Cell X F) (TypeMeta × ((X list_meta) × (Ref (RedisFailover X))))
  redis_failover_list_parts =
      both (flat {A = TypeMeta})
        (both (lib list_meta) (ref redis_failover_deep redis_failovers_layout))

  pub copy_redis_failover_list-fields :
      (s : RedisFailoverList X) (h : Memory (Cell X F))
      → (
        redis_failover_list_fields (copy_redis_failover_list lib s h).0,
        (copy_redis_failover_list lib s h).1,
      )
        ≡ redis_failover_list_parts.copy (redis_failover_list_fields s) h
  unfolding copy_redis_failover_list
  copy_redis_failover_list-fields s h = refl

  abbrev pub redis_failover_list_deep : Deep (Cell X F) (RedisFailoverList X)
  redis_failover_list_deep =
      via redis_failover_list_fields redis_failover_list_parts (copy_redis_failover_list lib)
        copy_redis_failover_list-fields
