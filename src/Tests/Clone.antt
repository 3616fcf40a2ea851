-- ===== src/Tests/Clone.antt =====
-- The reconciler and the refresh of a RedisClone on the small cluster.
use redis_backup_operator.Base.{String, ◌≡◌, refl, List, [], ◌∷◌, arith, map, All, true, ◌&&◌}
use redis_backup_operator.Base.Text.{lookup}
use redis_backup_operator.Base.Text.SplitLaws.{avoids, avoids-Avoids}
use redis_backup_operator.Types.Clone.{RedisClone}
use redis_backup_operator.Runtime.{World, updates_clone}
use redis_backup_operator.Redis.{slave_info}
use redis_backup_operator.Clone.{
  with_conditions, list_and_refresh, finish_refresh, refresh, resume, with_replication, reconcile,
  clone_info_sync,
}
use redis_backup_operator.Clone.Info.{
  Field, IsPrintable, print_section, ends_crlf, with_replication-print_section,
  with_replication-crlf,
}
use redis_backup_operator.Clone.Status.{IsRefreshed, clone_info_sync-IsRefreshed}
use redis_backup_operator.Clone.Start.{IsReported, reconcile-IsReported}
use redis_backup_operator.Tests.Cluster.{
  Cluster, environment, cluster_of, world_of, backup_of, clone_of, no_conditions, replication_text,
}

abbrev fresh : World Cluster
fresh = world_of (cluster_of (backup_of "") "redis-data-0" [])

abbrev running : World Cluster
running =
    world_of
      (record (cluster_of (backup_of "") "redis-data-0" []) { clone = clone_of "2023-12-31" })

abbrev printed : List Field
printed =
    ("master_link_status", "up")
    ∷ ("slave_repl_offset", "42")
    ∷ ("master_last_io_seconds_ago", "1")
    ∷ []

printed-IsPrintable : All IsPrintable printed
printed-IsPrintable = (
  field_IsPrintable "master_link_status" "up" refl,
  (
    field_IsPrintable "slave_repl_offset" "42" refl,
    (field_IsPrintable "master_last_io_seconds_ago" "1" refl, tt),
  ),
)
  where
    field_IsPrintable :
        (k v : String)
        → avoids ":" k && avoids ":" v && avoids "\n" k && avoids "\n" v ≡ true
        → IsPrintable (k, v)
    field_IsPrintable k v h = (
      avoids-Avoids ":" k (ground arith),
      avoids-Avoids ":" v (ground arith),
      avoids-Avoids "\n" k (ground arith),
      avoids-Avoids "\n" v (ground arith),
    )

reconcile-IsReported_example :
    IsReported environment
      (record { namespace = "prod"; name = "copy" })
      fresh
      (reconcile environment (record { namespace = "prod"; name = "copy" }) fresh)
reconcile-IsReported_example =
    reconcile-IsReported environment (record { namespace = "prod"; name = "copy" }) fresh

clone_info_sync-IsRefreshed_example :
    IsRefreshed environment "prod" "copy" running
      (clone_info_sync environment "prod" "copy" running)
clone_info_sync-IsRefreshed_example = clone_info_sync-IsRefreshed environment "prod" "copy" running

with_replication-print_section_example :
    with_replication no_conditions (print_section "# Replication" printed)
    ≡ record no_conditions { off_set = "42"; clone_lag = "1"; clone_status = "up" }
with_replication-print_section_example =
    with_replication-print_section no_conditions "# Replication" printed
      (avoids-Avoids ":" "# Replication" refl) (avoids-Avoids "\n" "# Replication" refl)
      printed-IsPrintable refl refl refl

with_replication-crlf_example :
    (with_replication no_conditions
      (print_section "# Replication" (map ends_crlf printed))).clone_status
    ≡ "up\r"
with_replication-crlf_example =
    with_replication-crlf no_conditions "# Replication" printed
      (avoids-Avoids ":" "# Replication" refl) (avoids-Avoids "\n" "# Replication" refl)
      printed-IsPrintable refl

-- What the refresh of a clone with a recorded start writes
abbrev rewritten : RedisClone
rewritten =
    with_conditions (clone_of "2023-12-31")
      (with_replication (clone_of "2023-12-31").status.conditions replication_text)

refresh_sends :
    (clone_info_sync environment "prod" "copy" running).1.log ≡ updates_clone rewritten ∷ []
unfolding clone_info_sync list_and_refresh finish_refresh refresh resume slave_info lookup
refresh_sends = refl
