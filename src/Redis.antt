-- ===== src/Redis.antt =====
-- utils/redis: the calls of redis and sentinel servers (client.go and redisclient.go).
-- `defer rClient.Close()` drops its error and changes nothing that the program reads, so it is not
-- modelled. Each request is logged before its answer is read.
pub mod Regex
pub mod Client
pub mod Config
pub mod Sentinel
pub mod Server
use redis_backup_operator.Base.{
  String, ◌==◌, Bool, true, false, not, ◌&&◌, Option, none, some, List, [], ◌∷◌, ℤ, pos,
  if◌then◌else◌,
}
use redis_backup_operator.Base.Text.{◌+++◌, contains}
use redis_backup_operator.Runtime.{
  M, pure, call, send, ◌>>=◌, GoError, Options, FailoverOptions, commands, Environment,
}

abbrev pub redis_port : String
redis_port = "6379"

abbrev pub sentinel_port : String
sentinel_port = "26379"

-- `net.JoinHostPort`: a host with a colon is bracketed.
unfoldable pub join_host_port : String → String → String
unfolding contains
join_host_port host port =
    if contains host ":" then "[" +++ host +++ "]:" +++ port else host +++ ":" +++ port

-- The options of a client of database 0.
abbrev pub options_of : String → String → String → Options
options_of ip port password = record {
  addr = join_host_port ip port;
  password = password;
  db = pos 0;
}

-- `errors.New(message)`
abbrev pub new_error : String → GoError
new_error message = record { is_not_found = false; message = message }

module _ {S : Type 0} (env : Environment S) where
  -- `RedisConn`: the value of a key on the master that the sentinel names, and "" if the client
  -- cannot be closed.
  unfoldable pub redis_conn : String → String → String → M S String
  redis_conn key_name host_port redis_pass = do
    res ← call (
        env.redis.failover_get
          (record {
            master_name = "mymaster";
            sentinel_addrs = host_port ∷ [];
            db = pos 15;
            password = redis_pass;
          })
          key_name)
    pure (elim (res.close_error) [ none ↦ res.val | some err ↦ "" ])

  -- `SlaveIsReady` of client.go, which returns the replication section of INFO.
  unfoldable pub slave_info : String → String → String → M S (String × Option GoError)
  slave_info ip port password = do
    info ← call (env.redis.info (options_of ip port password) "replication")
    pure (info.value, info.error)

  -- `FailOverOperate`
  unfoldable pub fail_over_operate : String → String → M S (String × Option GoError)
  fail_over_operate ip master_name =
      let options = options_of ip sentinel_port "" in
      let args : List String = "SENTINEL" ∷ "failover" ∷ master_name ∷ [] in
      do
        cmd ← send (commands options args) (env.redis.process options args)
        pure (elim (cmd.process_error) [
          | some err ↦ ("failover failed", some err)
          | none ↦ elim (cmd.result_error) [
            | some err ↦ ("failover failed", some err)
            | none ↦ ("failover succeeded: " +++ cmd.result, none)
          ]
        ])
