-- ===== src/Tests/Redis.antt =====
-- The redis client on the small cluster.
use redis_backup_operator.Base.{
  ℕ, String, ◌≡◌, refl, ◌⊎◌, Option, none, List, [], ◌∷◌, pos, negsuc, arith,
}
use redis_backup_operator.Base.Text.SplitLaws.{avoids-Avoids}
use redis_backup_operator.Runtime.{World, GoError, returned, commands}
use redis_backup_operator.Redis.{options_of, sentinel_port}
use redis_backup_operator.Redis.Regex.{decimal, find_submatch, is_digit, is_lower}
use redis_backup_operator.Redis.Regex.Laws.{IsLeftmost, find_submatch_iff}
use redis_backup_operator.Redis.Client.{
  read_number, get_config_parameters, monitor_redis_with_port, set_custom_sentinel_config,
}
use redis_backup_operator.Redis.Config.{
  RequestsPrefix, sets_sentinel, get_config_parameters-append,
  set_custom_sentinel_config-RequestsPrefix,
}
use redis_backup_operator.Redis.Sentinel.{
  monitor_redis_with_port-log, read_number-exact, read_number-wraps,
}
use redis_backup_operator.Tests.Cluster.{Cluster, environment, cluster_of, world_of, backup_of}

abbrev start : World Cluster
start = world_of (cluster_of (backup_of "") "redis-data-0" [])

abbrev no_error : Option GoError
no_error = none

abbrev section : String
section = "status=ok,slaves=x,sentinels=3\r\n"

abbrev huge_section : String
huge_section = "status=ok,sentinels=3000000000\r\n"

finds_status : IsLeftmost "status=" is_lower "ok" section
unfolding find_submatch
finds_status = (find_submatch_iff "status=" is_lower section "ok").0 refl

finds_sentinels : IsLeftmost "sentinels=" is_digit "3" section
unfolding find_submatch
finds_sentinels = (find_submatch_iff "sentinels=" is_digit section "3").0 refl

finds_huge_status : IsLeftmost "status=" is_lower "ok" huge_section
unfolding find_submatch
finds_huge_status = (find_submatch_iff "status=" is_lower huge_section "ok").0 refl

finds_huge_sentinels : IsLeftmost "sentinels=" is_digit "3000000000" huge_section
unfolding find_submatch
finds_huge_sentinels = (find_submatch_iff "sentinels=" is_digit huge_section "3000000000").0 refl

read_number-exact_example : read_number "sentinels=" "missing" section ≡ (pos 3, none)
unfolding decimal
read_number-exact_example =
    read_number-exact "sentinels=" "missing" section "3" finds_status finds_sentinels (omega arith)

read_number-wraps_example :
    (k : ℕ) × (read_number "sentinels=" "missing" huge_section ≡ (negsuc k, none))
unfolding decimal
read_number-wraps_example =
    read_number-wraps "sentinels=" "missing" huge_section "3000000000" finds_huge_status
      finds_huge_sentinels (omega arith) (omega arith)

get_config_parameters-append_example : get_config_parameters "save 900 1" ≡ ("save", "900 1", none)
get_config_parameters-append_example =
    get_config_parameters-append "save" "900 1" (avoids-Avoids " " "save" refl)

abbrev configs : List String
configs = "save 900 1" ∷ "broken" ∷ "timeout 5" ∷ []

set_custom_sentinel_config-RequestsPrefix_example :
    RequestsPrefix
      (sets_sentinel "10.0.0.7" "mymaster")
      configs
      []
      (set_custom_sentinel_config environment "10.0.0.7" "mymaster" configs start).1.log
      (set_custom_sentinel_config environment "10.0.0.7" "mymaster" configs start).0
set_custom_sentinel_config-RequestsPrefix_example =
    set_custom_sentinel_config-RequestsPrefix environment "10.0.0.7" "mymaster" configs start

monitor_redis_with_port-log_example :
    ((monitor_redis_with_port environment "10.0.0.7" "10.0.0.1" "6379" "2" "pw" "mymaster"
        start).1.log
      ≡ commands
          (options_of "10.0.0.7" sentinel_port "")
          ("SENTINEL" ∷ "SET" ∷ "mymaster" ∷ "auth-pass" ∷ "pw" ∷ [])
        ∷ commands
            (options_of "10.0.0.7" sentinel_port "")
            ("SENTINEL" ∷ "MONITOR" ∷ "mymaster" ∷ "10.0.0.1" ∷ "6379" ∷ "2" ∷ [])
        ∷ commands
            (options_of "10.0.0.7" sentinel_port "")
            ("SENTINEL" ∷ "REMOVE" ∷ "mymaster" ∷ [])
        ∷ [])
    × (((monitor_redis_with_port environment "10.0.0.7" "10.0.0.1" "6379" "2" "pw" "mymaster"
            start).0
          ≡ returned none)
        ⊎ (no_error ≡ none))
monitor_redis_with_port-log_example =
    monitor_redis_with_port-log environment "10.0.0.7" "10.0.0.1" "6379" "2" "pw" "mymaster" start
