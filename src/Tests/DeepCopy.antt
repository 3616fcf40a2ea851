-- ===== src/Tests/DeepCopy.antt =====
-- Structs in a small memory, and instances of the theorems about their deep copies. The third-party
-- structs are slices of texts here.
use redis_backup_operator.Base.{
  ℕ, String, refl, true, false, none, some, [], ◌∷◌, pos, get_elem?, arith,
}
use redis_backup_operator.DeepCopy.Memory.{Memory, Ref}
use redis_backup_operator.DeepCopy.Lawful.{Deep, flat}
use redis_backup_operator.DeepCopy.Blocks.{ref}
use redis_backup_operator.DeepCopy.Types.{
  Kind, TypeMeta, RedisBackupStruct, RedisBackupList, RedisoperateStruct,
}
use redis_backup_operator.DeepCopy.FailoverTypes.{
  RedisSettings, SentinelSettings, RedisFailover, RedisFailoverList,
}
use redis_backup_operator.DeepCopy.Cells.{
  Cell, strings, job_statuses, redis_backups, redis_backup_lists, redisoperates, redis_failovers,
  redis_failover_lists,
}
use redis_backup_operator.DeepCopy.Layouts.{strings_layout}
use redis_backup_operator.DeepCopy.Served.{deep_copy_redis_backup_list}
use redis_backup_operator.DeepCopy.Failover.{deep_copy_redis_failover_list}
use redis_backup_operator.DeepCopy.ServedLaws.{
  redis_backup_status_deep, redis_backup_deep, redis_backup_list_deep,
}
use redis_backup_operator.DeepCopy.FailoverLaws.{
  redis_settings_deep, sentinel_settings_deep, redis_failover_deep, redis_failover_list_deep,
}
use redis_backup_operator.DeepCopy.Separation.{
  IsSeparate, backup_lists, operates, failover_lists, deep_copy_redis_backup_list-IsSeparate,
  deep_copy_redis_failover_list-IsSeparate,
}
use redis_backup_operator.Tests.Cluster.{backup_of, operate_of}

abbrev Texts : Kind → Type 0
Texts k = Ref String

abbrev lib : (k : Kind) → Deep (Cell Texts ℕ) (Texts k)
lib k = ref flat strings_layout

abbrev type_meta : TypeMeta
type_meta = record { kind = "RedisBackup"; api_version = "v1alpha1" }

abbrev backup : RedisBackupStruct Texts
backup = record {
  type_meta = type_meta;
  metadata = some 0;
  spec = (backup_of "").spec;
  status = record {
    job_status = some 1;
    last_backup_info = (backup_of "").status.last_backup_info;
    conditions = none;
  };
}

abbrev backups : RedisBackupList Texts
backups = record { type_meta = type_meta; metadata = none; items = some 2 }

abbrev operate : RedisoperateStruct Texts
operate = record { type_meta = type_meta; metadata = some 0; spec = (operate_of).spec }

-- The custom configuration is not nil.
abbrev redis_settings : RedisSettings Texts
redis_settings = record {
  image = "redis";
  image_pull_policy = "Always";
  replicas = pos 3;
  resources = none;
  custom_config = some 0;
  custom_command_renames = none;
  command = none;
  shutdown_config_map = "";
  storage = record { keep_after_deletion = true; empty_dir = none; persistent_volume_claim = none };
  exporter = record {
    enabled = false;
    image = "";
    image_pull_policy = "";
    args = none;
    env = none;
    resources = none;
  };
  affinity = none;
  security_context = none;
  image_pull_secrets = none;
  tolerations = none;
  node_selector = none;
  pod_annotations = none;
  service_annotations = none;
  host_network = false;
  dns_policy = "";
  priority_class_name = "";
  service_account_name = "";
  termination_grace_period_seconds = pos 30;
}

abbrev sentinel_settings : SentinelSettings Texts
sentinel_settings = record {
  image = "redis";
  image_pull_policy = "Always";
  replicas = pos 3;
  resources = none;
  custom_config = none;
  command = some 0;
  affinity = none;
  security_context = none;
  image_pull_secrets = none;
  tolerations = none;
  node_selector = none;
  pod_annotations = none;
  service_annotations = none;
  exporter = record {
    enabled = false;
    image = "";
    image_pull_policy = "";
    args = none;
    env = none;
    resources = none;
  };
  host_network = false;
  dns_policy = "";
  priority_class_name = "";
  service_account_name = "";
  master_name = "mymaster";
}

abbrev failover : RedisFailover Texts
failover = record {
  type_meta = type_meta;
  metadata = some 0;
  spec = record {
    redis = redis_settings;
    sentinel = sentinel_settings;
    auth = record { secret_path = "auth" };
    label_whitelist = some 0;
    bootstrap_node = none;
  };
}

abbrev failovers : RedisFailoverList Texts
failovers = record { type_meta = type_meta; metadata = none; items = some 5 }

abbrev memory : Memory (Cell Texts ℕ)
memory = record {
  next = 7;
  cell = get_elem? (
      strings ("owner" ∷ [])
      ∷ job_statuses (record { completed = true } ∷ [])
      ∷ redis_backups (backup ∷ [])
      ∷ redis_backup_lists (backups ∷ [])
      ∷ redisoperates (operate ∷ [])
      ∷ redis_failovers (failover ∷ [])
      ∷ redis_failover_lists (failovers ∷ [])
      ∷ []);
}

owner_at : (ref flat strings_layout).At 0 7 memory (some 0) (some ("owner" ∷ []))
owner_at = record {
  xs = "owner" ∷ [];
  vs = "owner" ∷ [];
  viewed = refl;
  lower = omega arith;
  upper = omega arith;
  stored = refl;
  each = (refl, tt);
}

abbrev operate_view : (operates lib).View
operate_view = some (((type_meta, (operate_of).spec), some ("owner" ∷ [])) ∷ [])

operate_at : (operates lib).At 0 7 memory (some 4) operate_view
operate_at = record {
  xs = operate ∷ [];
  vs = ((type_meta, (operate_of).spec), some ("owner" ∷ [])) ∷ [];
  viewed = refl;
  lower = omega arith;
  upper = omega arith;
  stored = refl;
  each = ((refl, owner_at), tt);
}

abbrev status_view : (redis_backup_status_deep lib).View
status_view =
    ((backup_of "").status.last_backup_info, (some (record { completed = true } ∷ []), none))

status_at : (redis_backup_status_deep lib).At 0 7 memory backup.status status_view
status_at = (
  refl,
  (
    record {
      xs = record { completed = true } ∷ [];
      vs = record { completed = true } ∷ [];
      viewed = refl;
      lower = omega arith;
      upper = omega arith;
      stored = refl;
      each = (refl, tt);
    },
    refl,
  ),
)

abbrev backup_view : (redis_backup_deep lib).View
backup_view = ((type_meta, (backup_of "").spec), (some ("owner" ∷ []), status_view))

abbrev backups_view : (redis_backup_list_deep lib).View
backups_view = (type_meta, (none, some (backup_view ∷ [])))

backups_at : (backup_lists lib).At 0 7 memory (some 3) (some (backups_view ∷ []))
backups_at = record {
  xs = backups ∷ [];
  vs = backups_view ∷ [];
  viewed = refl;
  lower = omega arith;
  upper = omega arith;
  stored = refl;
  each = (
    (
      refl,
      (
        refl,
        record {
          xs = backup ∷ [];
          vs = backup_view ∷ [];
          viewed = refl;
          lower = omega arith;
          upper = omega arith;
          stored = refl;
          each = ((refl, (owner_at, status_at)), tt);
        },
      ),
    ),
    tt,
  );
}

deep_copy_redis_backup_list-IsSeparate_example :
    IsSeparate
      (backup_lists lib)
      (some 3)
      (some (backups_view ∷ []))
      memory
      (deep_copy_redis_backup_list lib (some 3) memory)
deep_copy_redis_backup_list-IsSeparate_example =
    deep_copy_redis_backup_list-IsSeparate lib (some 3) (some (backups_view ∷ [])) memory backups_at

abbrev redis_view : (redis_settings_deep lib).View
redis_view = (
  ("redis", "Always", pos 3, "", false, "", "", "", pos 30),
  (
    none,
    (
      some ("owner" ∷ []),
      (
        none,
        (
          none,
          (
            (true, (none, none)),
            (
              ((false, "", ""), (none, (none, none))),
              (none, (none, (none, (none, (none, (none, none)))))),
            ),
          ),
        ),
      ),
    ),
  ),
)

redis_at : (redis_settings_deep lib).At 0 7 memory redis_settings redis_view
redis_at = (
  refl,
  (
    refl,
    (
      owner_at,
      (
        refl,
        (
          refl,
          (
            (refl, (refl, refl)),
            ((refl, (refl, (refl, refl))), (refl, (refl, (refl, (refl, (refl, (refl, refl))))))),
          ),
        ),
      ),
    ),
  ),
)

abbrev sentinel_view : (sentinel_settings_deep lib).View
sentinel_view = (
  ("redis", "Always", pos 3, false, "", "", "", "mymaster"),
  (
    none,
    (
      none,
      (
        some ("owner" ∷ []),
        (
          none,
          (none, (none, (none, (none, (none, (none, ((false, "", ""), (none, (none, none))))))))),
        ),
      ),
    ),
  ),
)

sentinel_at : (sentinel_settings_deep lib).At 0 7 memory sentinel_settings sentinel_view
sentinel_at = (
  refl,
  (
    refl,
    (
      refl,
      (
        owner_at,
        (refl, (refl, (refl, (refl, (refl, (refl, (refl, (refl, (refl, (refl, refl)))))))))),
      ),
    ),
  ),
)

abbrev failover_view : (redis_failover_deep lib).View
failover_view = (
  type_meta,
  (
    some ("owner" ∷ []),
    (record { secret_path = "auth" }, (redis_view, (sentinel_view, (some ("owner" ∷ []), none)))),
  ),
)

failover_at : (redis_failover_deep lib).At 0 7 memory failover failover_view
failover_at = (refl, (owner_at, (refl, (redis_at, (sentinel_at, (owner_at, refl))))))

abbrev failovers_view : (redis_failover_list_deep lib).View
failovers_view = (type_meta, (none, some (failover_view ∷ [])))

failovers_at : (failover_lists lib).At 0 7 memory (some 6) (some (failovers_view ∷ []))
failovers_at = record {
  xs = failovers ∷ [];
  vs = failovers_view ∷ [];
  viewed = refl;
  lower = omega arith;
  upper = omega arith;
  stored = refl;
  each = (
    (
      refl,
      (
        refl,
        record {
          xs = failover ∷ [];
          vs = failover_view ∷ [];
          viewed = refl;
          lower = omega arith;
          upper = omega arith;
          stored = refl;
          each = (failover_at, tt);
        },
      ),
    ),
    tt,
  );
}

deep_copy_redis_failover_list-IsSeparate_example :
    IsSeparate
      (failover_lists lib)
      (some 6)
      (some (failovers_view ∷ []))
      memory
      (deep_copy_redis_failover_list lib (some 6) memory)
deep_copy_redis_failover_list-IsSeparate_example =
    deep_copy_redis_failover_list-IsSeparate lib (some 6) (some (failovers_view ∷ [])) memory
      failovers_at
