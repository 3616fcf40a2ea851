-- ===== src/DeepCopy/FailoverTypes.antt =====
-- api/v1alpha1/types.go: the RedisFailover types as structs in memory, with their references.
use redis_backup_operator.Base.{String, Bool, ℤ}
use redis_backup_operator.DeepCopy.Memory.{Ref}
use redis_backup_operator.DeepCopy.Types.{
  Kind, object_meta, list_meta, claim_spec, claim_status, empty_dir_volume_source, affinity_rules,
  pod_security_context, toleration, env_var, resource_requirements, TypeMeta,
}

pub record RedisCommandRename : Type 0 where
  pub from : String
  pub to : String

pub record AuthSettings : Type 0 where
  pub secret_path : String

pub record BootstrapSettings : Type 0 where
  pub host : String
  pub port : String
  pub allow_sentinels : Bool

-- `corev1.LocalObjectReference`
pub record LocalObjectReference : Type 0 where
  pub name : String

pub record EmbeddedObjectMetadata (X : Kind → Type 0) : Type 0 where
  pub name : String
  pub labels : Ref (String × String)
  pub annotations : Ref (String × String)

pub record EmbeddedPersistentVolumeClaim (X : Kind → Type 0) : Type 0 where
  pub type_meta : TypeMeta
  pub embedded_object_metadata : EmbeddedObjectMetadata X
  pub spec : X claim_spec
  pub status : X claim_status

pub record RedisExporter (X : Kind → Type 0) : Type 0 where
  pub enabled : Bool
  pub image : String
  pub image_pull_policy : String
  pub args : Ref String
  pub env : Ref (X env_var)
  pub resources : Ref (X resource_requirements)

pub record SentinelExporter (X : Kind → Type 0) : Type 0 where
  pub enabled : Bool
  pub image : String
  pub image_pull_policy : String
  pub args : Ref String
  pub env : Ref (X env_var)
  pub resources : Ref (X resource_requirements)

pub record RedisStorage (X : Kind → Type 0) : Type 0 where
  pub keep_after_deletion : Bool
  pub empty_dir : Ref (X empty_dir_volume_source)
  pub persistent_volume_claim : Ref (EmbeddedPersistentVolumeClaim X)

pub record RedisSettings (X : Kind → Type 0) : Type 0 where
  pub image : String
  pub image_pull_policy : String
  pub replicas : ℤ
  pub resources : X resource_requirements
  pub custom_config : Ref String
  pub custom_command_renames : Ref RedisCommandRename
  pub command : Ref String
  pub shutdown_config_map : String
  pub storage : RedisStorage X
  pub exporter : RedisExporter X
  pub affinity : Ref (X affinity_rules)
  pub security_context : Ref (X pod_security_context)
  pub image_pull_secrets : Ref LocalObjectReference
  pub tolerations : Ref (X toleration)
  pub node_selector : Ref (String × String)
  pub pod_annotations : Ref (String × String)
  pub service_annotations : Ref (String × String)
  pub host_network : Bool
  pub dns_policy : String
  pub priority_class_name : String
  pub service_account_name : String
  pub termination_grace_period_seconds : ℤ

pub record SentinelSettings (X : Kind → Type 0) : Type 0 where
  pub image : String
  pub image_pull_policy : String
  pub replicas : ℤ
  pub resources : X resource_requirements
  pub custom_config : Ref String
  pub command : Ref String
  pub affinity : Ref (X affinity_rules)
  pub security_context : Ref (X pod_security_context)
  pub image_pull_secrets : Ref LocalObjectReference
  pub tolerations : Ref (X toleration)
  pub node_selector : Ref (String × String)
  pub pod_annotations : Ref (String × String)
  pub service_annotations : Ref (String × String)
  pub exporter : SentinelExporter X
  pub host_network : Bool
  pub dns_policy : String
  pub priority_class_name : String
  pub service_account_name : String
  pub master_name : String

pub record RedisFailoverSpec (X : Kind → Type 0) : Type 0 where
  pub redis : RedisSettings X
  pub sentinel : SentinelSettings X
  pub auth : AuthSettings
  pub label_whitelist : Ref String
  pub bootstrap_node : Ref BootstrapSettings

pub record RedisFailover (X : Kind → Type 0) : Type 0 where
  pub type_meta : TypeMeta
  pub metadata : X object_meta
  pub spec : RedisFailoverSpec X

pub record RedisFailoverList (X : Kind → Type 0) : Type 0 where
  pub type_meta : TypeMeta
  pub metadata : X list_meta
  pub items : Ref (RedisFailover X)
