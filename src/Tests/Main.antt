-- ===== src/Tests/Main.antt =====
-- The start of the process and the handler of a clone's resync on the small cluster.
use redis_backup_operator.Base.{String, false, Option, none, some, List, []}
use redis_backup_operator.Runtime.{World, GoError}
use redis_backup_operator.Main.{Startup, Flags, on_clone_update}
use redis_backup_operator.Main.Exits.{HandlerEnds, on_clone_update-HandlerEnds}
use redis_backup_operator.Tests.Scheme.{in_cluster, Added}
use redis_backup_operator.Tests.Cluster.{
  Cluster, environment, cluster_of, world_of, backup_of, clone_of, unavailable,
}

abbrev small : World Cluster
small = world_of (cluster_of (backup_of "") "redis-data-0" [])

abbrev succeeds : Cluster → Option GoError × Cluster
succeeds s = (none, s)

-- A start outside of a cluster: `rest.InClusterConfig` fails.
abbrev outside : Startup Cluster (List Added) String
outside = record {
  new_manager = λ options. succeeds;
  complete = λ builder. succeeds;
  add_healthz_check = succeeds;
  add_readyz_check = succeeds;
  in_cluster_config = λ s. (record { value = in_cluster; error = some unavailable }, s);
  run_informer = λ informer s. s;
  start = succeeds;
}

abbrev defaults : Flags
defaults = record { metrics_addr = ":8080"; enable_leader_election = false; probe_addr = ":8081" }

on_clone_update-HandlerEnds_example :
    HandlerEnds environment
      (clone_of "")
      small
      (on_clone_update environment (some (clone_of "")) small).0
on_clone_update-HandlerEnds_example = on_clone_update-HandlerEnds environment (clone_of "") small
