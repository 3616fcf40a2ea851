-- ===== src/Tests/Servers.antt =====
-- Two redis servers and a sentinel that answer as they are documented to, and the client on them.
use redis_backup_operator.Base.{
  String, ◌==◌, ◌≡◌, refl, ◌≢◌, Bool, true, false, Option, none, some, List, [], ◌∷◌, Bool-cases,
  inl, inr, eq_refl, if◌then◌else◌, eq_iff, is_none,
}
use mathlib.Core.Bool.{false≢true}
use mathlib.Core.Path.{subst}
use redis_backup_operator.Base.Text.{contains}
use redis_backup_operator.Runtime.{World, Environment, Options, CmdReply, text, returned}
use redis_backup_operator.Redis.{options_of, join_host_port, redis_port, sentinel_port}
use redis_backup_operator.Redis.Regex.Laws.{AllOf}
use redis_backup_operator.Redis.Regex.{is_digit_or_dot}
use redis_backup_operator.Redis.Client.{
  is_master, get_slave_of, slave_is_ready, make_master, make_slave_of, monitor_redis_with_port,
  get_sentinel_monitor,
}
use redis_backup_operator.Redis.Server.{Role, master, replica, section, Server, Sentinel, IsAddress}
use redis_backup_operator.Redis.Server.Replies.{role_at-Reads, make_master-make_slave_of}
use redis_backup_operator.Redis.Server.Watch.{monitor_redis_with_port-get_sentinel_monitor}
use redis_backup_operator.Tests.Cluster.{
  text-non_empty, constant, success, cluster_of, backup_of, Cluster, unavailable,
}

record Nodes : Type 0 where
  first : Role
  second : Role
  watched : String → Option (String × String)

abbrev role_of : String → String → Role
role_of host port =
    if host == "NO"
    then master
    else replica (record { host = host; port = port; up = false; last_io = "-1"; syncing = false })

abbrev is_first : Options → Bool
is_first options = options.addr == "10.0.0.1:6379"

abbrev ok : CmdReply
ok = record { process_error = none; result_error = none; result = "OK"; items = [] }

abbrev refused : CmdReply
refused = record ok { result_error = some unavailable }

abbrev watch : String → Option (String × String) → Nodes → Nodes
watch name found s = record s { watched = λ n. if n == name then found else s.watched n }

abbrev described : String → Option (String × String) → CmdReply
described name none = refused
described name (some (host, port)) = record ok {
  items = text "name" ∷ text name ∷ text "ip" ∷ text host ∷ text "port" ∷ text port ∷ [];
}

abbrev monitor_slot : String → List String → Nodes → CmdReply × Nodes
monitor_slot name (host ∷ port ∷ more) s =
    if is_none (s.watched name) then (ok, watch name (some (host, port)) s) else (refused, s)
monitor_slot name more s = (refused, s)

abbrev answers : List String → Nodes → CmdReply × Nodes
answers (command ∷ verb ∷ name ∷ more) s =
    if verb == "REMOVE"
    then (ok, watch name none s)
    else if verb == "MONITOR"
    then monitor_slot name more s
    else if verb == "SET"
    then ((if is_none (s.watched name) then refused else ok), s)
    else (described name (s.watched name), s)
answers args s = (refused, s)

abbrev cluster : Cluster
cluster = cluster_of (backup_of "") "redis-data-0" []

abbrev servers : Environment Nodes
servers = record (constant Nodes cluster) {
  redis = record ((constant Nodes cluster).redis) {
    info = λ options name s.
        (success (section (if is_first options then s.first else s.second) ""), s);
    process = λ options args s. answers args s;
    slave_of = λ options host port s. (
      none,
      if is_first options
          then record s { first = role_of host port }
          else record s { second = role_of host port },
    );
  };
}

abbrev options_at : String → Options
options_at ip = options_of ip redis_port "pw"

role_of-replica :
    (host port : String)
    → IsAddress host
    → role_of host port
      ≡ replica (record { host = host; port = port; up = false; last_io = "-1"; syncing = false })
role_of-replica host port (digits, full) = elim (Bool-cases (host == "NO")) [
  | inr other ↦ rw other refl
  | inl same ↦
      absurd (false≢true (subst (AllOf is_digit_or_dot) ((eq_iff host "NO").0 same) digits).0)
]

first_server : Server servers (options_at "10.0.0.1")
unfolding join_host_port contains
first_server = record {
  role_at = λ s. s.first;
  rest_at = λ s. "";
  quiet = λ s. (refl, refl, refl, refl);
  info = λ s. refl;
  promotes = λ s. (refl, refl);
  follows = λ host port s address plain. (
    record { host = host; port = port; up = false; last_io = "-1"; syncing = false },
    refl,
    role_of-replica host port address,
    refl,
    refl,
    (refl, (refl, tt)),
  );
}

second_server : Server servers (options_at "10.0.0.2")
unfolding join_host_port contains
second_server = record {
  role_at = λ s. s.second;
  rest_at = λ s. "";
  quiet = λ s. (refl, refl, refl, refl);
  info = λ s. refl;
  promotes = λ s. (refl, refl);
  follows = λ host port s address plain. (
    record { host = host; port = port; up = false; last_io = "-1"; syncing = false },
    refl,
    role_of-replica host port address,
    refl,
    refl,
    (refl, (refl, tt)),
  );
}

present : {A : Type 0} (o : Option A) → o ≢ none → is_none o ≡ false
present none here = absurd (here refl)
present (some a) here = refl

abbrev sentinel : Sentinel servers (options_of "10.0.0.7" sentinel_port "")
sentinel = record {
  watched_at = λ s name. s.watched name;
  takes = λ host port quorum. true;
  more = λ s. [];
  removes = λ name s. rw (eq_refl name) refl;
  monitors = λ name host port quorum s takes free. rw (free, eq_refl name) (refl, refl);
  authenticates = λ name password s here. rw (present (s.watched name) here) (refl, refl);
  describes = λ name host port s on. rw on (refl, refl);
}

first-IsAddress : IsAddress "10.0.0.1"
first-IsAddress = (
  (refl, (refl, (refl, (refl, (refl, (refl, (refl, (refl, tt)))))))),
  text-non_empty "10.0.0.1" refl,
)

second-IsAddress : IsAddress "10.0.0.2"
second-IsAddress = (
  (refl, (refl, (refl, (refl, (refl, (refl, (refl, (refl, tt)))))))),
  text-non_empty "10.0.0.2" refl,
)

-- The first server follows the second, and the sentinel watches the second.
abbrev start : World Nodes
start = record {
  cluster = record {
    first = role_of "10.0.0.2" "6379";
    second = master;
    watched = λ name. if name == "mymaster" then some ("10.0.0.2", "6379") else none;
  };
  log = [];
}

role_at-Reads_example :
    ((is_master servers "10.0.0.1" "pw" start).0 ≡ returned (false, none))
    × ((get_slave_of servers "10.0.0.1" "pw" start).0 ≡ returned ("10.0.0.2", none))
    × ((slave_is_ready servers "10.0.0.1" "pw" start).0 ≡ returned (false, none))
unfolding first_server
role_at-Reads_example =
    role_at-Reads "10.0.0.1" "pw" first_server start
      (second-IsAddress, (refl, (refl, (refl, (refl, tt)))), (refl, (refl, tt)))

make_master-make_slave_of_example :
    let promoted = (make_master servers "10.0.0.1" "pw" start).1 in
    let attached = (make_slave_of servers "10.0.0.2" "10.0.0.1" "pw" promoted).1 in
    ((make_master servers "10.0.0.1" "pw" start).0 ≡ returned none)
    × ((make_slave_of servers "10.0.0.2" "10.0.0.1" "pw" promoted).0 ≡ returned none)
    × ((is_master servers "10.0.0.1" "pw" attached).0 ≡ returned (true, none))
    × ((get_slave_of servers "10.0.0.1" "pw" attached).0 ≡ returned ("", none))
    × ((is_master servers "10.0.0.2" "pw" attached).0 ≡ returned (false, none))
    × ((get_slave_of servers "10.0.0.2" "pw" attached).0 ≡ returned ("10.0.0.1", none))
unfolding first_server join_host_port contains
make_master-make_slave_of_example =
    make_master-make_slave_of "10.0.0.1" "10.0.0.2" "pw" first_server second_server start
      first-IsAddress (λ host port s. refl)

monitor_redis_with_port-get_sentinel_monitor_example :
    ((monitor_redis_with_port servers "10.0.0.7" "10.0.0.1" "6379" "2" "pw" "mymaster" start).0
      ≡ returned none)
    × ((get_sentinel_monitor servers "10.0.0.7" "mymaster"
          (monitor_redis_with_port servers "10.0.0.7" "10.0.0.1" "6379" "2" "pw" "mymaster"
            start).1).0
        ≡ returned ("10.0.0.1", "6379", none))
monitor_redis_with_port-get_sentinel_monitor_example =
    monitor_redis_with_port-get_sentinel_monitor "10.0.0.7" sentinel "10.0.0.1" "6379" "2" "pw"
      "mymaster" start refl
