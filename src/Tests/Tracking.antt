-- ===== src/Tests/Tracking.antt =====
-- A RedisClone whose destination comes up, on a cluster that keeps its conditions.
use mathlib.Core.Path.{subst}
use redis_backup_operator.Base.Text.{join}
use redis_backup_operator.Base.{
  String, ◌≡◌, refl, inl, none, some, List, [], ◌∷◌, true, ◌&&◌, arith,
}
use redis_backup_operator.Types.Kubernetes.{NamespacedName, Pod}
use redis_backup_operator.Types.Clone.{RedisClone, CloneCondition}
use redis_backup_operator.Runtime.{World, Environment}
use redis_backup_operator.Clone.Tracking.{IsLinked, follow_spec, starts, refreshes, passes_on}
use redis_backup_operator.Clone.Tracking.Store.{Store, seen_at, seen_in}
use redis_backup_operator.Clone.Tracking.Shows.{Shows, printed}
use redis_backup_operator.Clone.Info.{Field, IsPrintable, print_reply}
use redis_backup_operator.Base.Text.SplitLaws.{avoids, avoids-Avoids}
use redis_backup_operator.Clone.Tracking.Writes.{IsView}
use redis_backup_operator.Clone.Tracking.Runs.{
  Action, reconciles, syncs, others, Returns, follow, view_at, follow-IsView, follow-Tracks,
}
use redis_backup_operator.Tests.Cluster.{
  text-non_empty, Cluster, constant, cluster_of, backup_of, clone_of, success, pod_of,
}

record Followed : Type 0 where
  conditions : CloneCondition
  pods : List Pod
  answer : String
  time : String

abbrev small : Cluster
small = cluster_of (backup_of "") "redis-data-0" []

abbrev stored_clone : CloneCondition → RedisClone
stored_clone c = record (clone_of "") { status = record { conditions = c } }

abbrev environment : Environment Followed
environment = record (constant Followed small) {
  api = record ((constant Followed small).api) {
    get_redis_clone = λ k s. (success (stored_clone s.conditions), s);
    list_pods = λ labels s. (success s.pods, s);
    update_clone_status = λ c s. (none, record s { conditions = c.status.conditions });
  };
  redis = record ((constant Followed small).redis) {
    info = λ options section s. (success s.answer, s);
  };
  host = record ((constant Followed small).host) { now = λ s. (s.time, s) };
}

abbrev request : NamespacedName
request = record { namespace = "prod"; name = "clone" }

seen_in-conditions :
    (pods : List Pod) (c : CloneCondition) (s : Followed)
    → seen_in environment (clone_of "").spec pods (record s { conditions = c })
      ≡ seen_in environment (clone_of "").spec pods s
seen_in-conditions [] c s = refl
seen_in-conditions (pod ∷ pods) c s = refl

abbrev store : Store environment request
store = record {
  metadata = (clone_of "").metadata;
  spec = (clone_of "").spec;
  conditions_at = λ s. s.conditions;
  pods_at = λ s. s.pods;
  time_at = λ s. s.time;
  get_clone = λ s. refl;
  list_pods = λ s. refl;
  clock = λ s. refl;
  info = λ options s. refl;
  update_answers = λ c s. refl;
  update_stores = λ c s. refl;
  update_time = λ c s. refl;
  update_seen = λ c s. seen_in-conditions s.pods c s;
}

-- No pod is there yet.
abbrev fresh : World Followed
fresh = record {
  cluster = record {
    conditions = (clone_of "").status.conditions;
    pods = [];
    answer = "";
    time = "2024-01-02 00:00:00";
  };
  log = [];
}

abbrev fields : List Field
fields = ("master_link_status", "up") ∷ ("slave_repl_offset", "42") ∷ []

abbrev up : String
up = "# Replication\r\nmaster_link_status:up\r\nslave_repl_offset:42\r\n"

prints_up : print_reply "# Replication" fields ≡ up
unfolding join
prints_up = refl

shows_up : Shows (some up) "up\r"
shows_up =
    subst (λ s. Shows (some s) "up\r") prints_up
      (printed "# Replication" fields (avoids-Avoids ":" "# Replication" refl)
        (avoids-Avoids "\n" "# Replication" refl)
        (
          field_IsPrintable "master_link_status" "up" refl,
          (field_IsPrintable "slave_repl_offset" "42" refl, tt),
        )
        refl)
  where
    field_IsPrintable :
        (k v : String)
        → avoids ":" k && avoids ":" v && avoids "\n" k && avoids "\n" v ≡ true
        → IsPrintable (k, v)
    field_IsPrintable k v h = (
      avoids-Avoids ":" k (ground arith),
      avoids-Avoids ":" v (ground arith),
      avoids-Avoids "\n" k (ground arith),
      avoids-Avoids "\n" v (ground arith),
    )

-- The destination is there and follows the source.
abbrev comes_up : Action store
comes_up = others (some up) "2024-01-02 00:05:00" (record {
  act = λ s. record s {
    pods = pod_of "slave" "Running" "redis-data-1" ∷ [];
    answer = up;
    time = "2024-01-02 00:05:00";
  };
  sees = λ s. refl;
  shows = λ s. refl;
  holds = λ s. refl;
})

follow-IsView_example :
    Returns store (reconciles ∷ comes_up ∷ syncs ∷ []) fresh
    × IsView store (follow store (reconciles ∷ comes_up ∷ syncs ∷ []) fresh).cluster (
        follow_spec
          (clone_of "").spec
          (starts ∷ passes_on (some up) "2024-01-02 00:05:00" ∷ refreshes ∷ [])
          (view_at store fresh.cluster))
follow-IsView_example =
    follow-IsView store (reconciles ∷ comes_up ∷ syncs ∷ []) fresh (view_at store fresh.cluster)
      (refl, refl, refl)

follow-Tracks_example :
    Returns store (reconciles ∷ comes_up ∷ syncs ∷ reconciles ∷ []) fresh
    × (seen_at store (follow store (reconciles ∷ comes_up ∷ syncs ∷ reconciles ∷ []) fresh).cluster
        ≡ some up)
    × IsLinked
        (clone_of "").spec
        "up\r"
        (follow store (reconciles ∷ comes_up ∷ syncs ∷ reconciles ∷ []) fresh).cluster.conditions
follow-Tracks_example =
    follow-Tracks store (reconciles ∷ comes_up ∷ []) syncs (reconciles ∷ []) fresh "up\r" shows_up
      (text-non_empty "2024-01-02 00:00:00" refl, inl refl)
      (tt, (text-non_empty "2024-01-02 00:05:00" refl, tt)) tt (tt, tt)
