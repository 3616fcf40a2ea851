-- ===== src/Redis/Client.antt =====
-- The methods of `client` in redisclient.go.
use redis_backup_operator.Base.{
  ℕ, String, ◌==◌, Bool, false, not, ◌&&◌, Option, none, some, List, [], ◌∷◌, ℤ, pos, get_elem?,
  if◌then◌else◌,
}
use redis_backup_operator.Base.Text.{◌+++◌, contains, split, join}
use redis_backup_operator.Runtime.{
  M, pure, call, send, or_panic, ◌>>=◌, GoError, Options, RedisValue, text, other, CmdReply,
  commands, Environment,
}
use redis_backup_operator.Redis.{options_of, new_error, redis_port, sentinel_port}
use redis_backup_operator.Redis.Regex.{
  find_submatch, atoi, to_int32, is_digit, is_lower, is_digit_or_dot,
}

-- `isSentinelReady`
unfoldable pub is_sentinel_ready : String → Option GoError
unfolding find_submatch
is_sentinel_ready info = elim (find_submatch "status=" is_lower info) [
  | none ↦ some (new_error "Sentinels not ready")
  | some status ↦ if status == "ok" then none else some (new_error "Sentinels not ready")
]

-- What both counters do with the section: the number after `literal`.
unfoldable pub read_number : String → String → String → ℤ × Option GoError
unfolding is_sentinel_ready find_submatch atoi to_int32
read_number literal missing info = elim (is_sentinel_ready info) [
  | some err2 ↦ (pos 0, some err2)
  | none ↦ elim (find_submatch literal is_digit info) [
    | none ↦ (pos 0, some (new_error missing))
    | some digits ↦ elim (atoi digits) [
      | none ↦ (pos 0, some (new_error "value out of range"))
      | some n ↦ (to_int32 n, none)
    ]
  ]
]

-- The error of `Process`, and then that of `Result`.
abbrev pub cmd_error : CmdReply → Option GoError
cmd_error reply = elim (reply.process_error) [ some err ↦ some err | none ↦ reply.result_error ]

-- `res[i].(string)`; `none` is a panic.
abbrev pub text_at : List RedisValue → ℕ → Option String
text_at res i = elim (get_elem? res i) [
  | none ↦ none
  | some v ↦ elim v [ text s ↦ some s | other ↦ none ]
]

-- The pieces of a configuration line: a parameter and a value, or an error.
abbrev pub config_pieces : String → List String → String × String × Option GoError
config_pieces config (parameter ∷ piece ∷ pieces) = (parameter, join (piece ∷ pieces) " ", none)
config_pieces config _ = ("", "", some (new_error ("configuration '" +++ config +++ "' malformed")))

-- `getConfigParameters`
unfoldable pub get_config_parameters : String → String × String × Option GoError
unfolding split join
get_config_parameters config = config_pieces config (split config " ")

module _ {S : Type 0} (env : Environment S) where
  abbrev sentinel_options : String → Options
  sentinel_options ip = options_of ip sentinel_port ""

  abbrev redis_options : String → String → Options
  redis_options ip password = options_of ip redis_port password

  -- A sentinel command, logged.
  abbrev process : Options → List String → M S CmdReply
  process options args = send (commands options args) (env.redis.process options args)

  unfoldable pub get_number_sentinels_in_memory : String → M S (ℤ × Option GoError)
  unfolding read_number
  get_number_sentinels_in_memory ip = do
    info ← call (env.redis.info (sentinel_options ip) "sentinel")
    pure (elim (info.error) [
      | some err ↦ (pos 0, some err)
      | none ↦ read_number "sentinels=" "Seninel regex not found" info.value
    ])

  unfoldable pub get_number_sentinel_slaves_in_memory : String → M S (ℤ × Option GoError)
  unfolding read_number
  get_number_sentinel_slaves_in_memory ip = do
    info ← call (env.redis.info (sentinel_options ip) "sentinel")
    pure (elim (info.error) [
      | some err ↦ (pos 0, some err)
      | none ↦ read_number "slaves=" "Slaves regex not found" info.value
    ])

  unfoldable pub reset_sentinel : String → M S (Option GoError)
  reset_sentinel ip = do
    cmd ← process (sentinel_options ip) ("SENTINEL" ∷ "reset" ∷ "*" ∷ [])
    pure (cmd_error cmd)

  unfoldable pub get_slave_of : String → String → M S (String × Option GoError)
  unfolding find_submatch
  get_slave_of ip password = do
    info ← call (env.redis.info (redis_options ip password) "replication")
    pure (elim (info.error) [
      | some err ↦ ("", some err)
      | none ↦ elim (find_submatch "master_host:" is_digit_or_dot info.value) [
        | none ↦ ("", none)
        | some host ↦ (host, none)
      ]
    ])

  unfoldable pub is_master : String → String → M S (Bool × Option GoError)
  unfolding contains
  is_master ip password = do
    info ← call (env.redis.info (redis_options ip password) "replication")
    pure (elim (info.error) [
      | some err ↦ (false, some err)
      | none ↦ (contains info.value "role:master", none)
    ])

  -- The last part of `MonitorRedisWithPort`
  unfoldable pub set_auth_pass : String → String → String → M S (Option GoError)
  set_auth_pass ip master_name password = if password == "" then pure none else do
    cmd ←
        process (sentinel_options ip)
          ("SENTINEL" ∷ "SET" ∷ master_name ∷ "auth-pass" ∷ password ∷ [])
    pure (cmd_error cmd)

  unfoldable pub monitor_redis_with_port :
      String → String → String → String → String → String → M S (Option GoError)
  unfolding set_auth_pass
  monitor_redis_with_port ip monitor port quorum password master_name = do
    _ ← process (sentinel_options ip) ("SENTINEL" ∷ "REMOVE" ∷ master_name ∷ [])
    cmd ←
        process (sentinel_options ip)
          ("SENTINEL" ∷ "MONITOR" ∷ master_name ∷ monitor ∷ port ∷ quorum ∷ [])
    elim (cmd_error cmd) [
      | some err ↦ pure (some err)
      | none ↦ set_auth_pass ip master_name password
    ]

  unfoldable pub monitor_redis : String → String → String → String → String → M S (Option GoError)
  unfolding monitor_redis_with_port
  monitor_redis ip monitor quorum password master_name =
      monitor_redis_with_port ip monitor redis_port quorum password master_name

  -- `SlaveOf` on the redis at `ip`, logged with its command.
  abbrev slave_of : Options → String → String → M S (Option GoError)
  slave_of options host port =
      send (commands options ("SLAVEOF" ∷ host ∷ port ∷ [])) (env.redis.slave_of options host port)

  unfoldable pub make_master : String → String → M S (Option GoError)
  make_master ip password = slave_of (redis_options ip password) "NO" "ONE"

  unfoldable pub make_slave_of_with_port : String → String → String → String → M S (Option GoError)
  make_slave_of_with_port ip master_ip master_port password =
      slave_of (redis_options ip password) master_ip master_port

  unfoldable pub make_slave_of : String → String → String → M S (Option GoError)
  unfolding make_slave_of_with_port
  make_slave_of ip master_ip password = make_slave_of_with_port ip master_ip redis_port password

  unfoldable pub get_sentinel_monitor : String → String → M S (String × String × Option GoError)
  get_sentinel_monitor ip master_name = do
    cmd ← process (sentinel_options ip) ("SENTINEL" ∷ "master" ∷ master_name ∷ [])
    elim (cmd_error cmd) [
      | some err ↦ pure ("", "", some err)
      | none ↦ do
        master_ip ← or_panic (text_at cmd.items 3)
        master_port ← or_panic (text_at cmd.items 5)
        pure (master_ip, master_port, none)
    ]

  unfoldable pub apply_redis_config : Options → String → String → M S (Option GoError)
  apply_redis_config options parameter value =
      send (commands options ("CONFIG" ∷ "SET" ∷ parameter ∷ value ∷ []))
        (env.redis.config_set options parameter value)

  unfoldable pub apply_sentinel_config : Options → String → String → String → M S (Option GoError)
  apply_sentinel_config options parameter master_name value = do
    cmd ← process options ("SENTINEL" ∷ "set" ∷ master_name ∷ parameter ∷ value ∷ [])
    pure (cmd_error cmd)

  -- The loop over `configs` in both setters: the first malformed line or failing request ends it.
  unfoldable pub apply_configs :
      (String → String → M S (Option GoError)) → List String → M S (Option GoError)
  apply_configs apply [] = pure none
  apply_configs apply (config ∷ configs) =
      let (parameter, value, malformed) = get_config_parameters config in
      elim malformed [
        | some err ↦ pure (some err)
        | none ↦ do
          failed ← apply parameter value
          elim failed [ some err ↦ pure (some err) | none ↦ apply_configs apply configs ]
      ]

  unfoldable pub set_custom_sentinel_config : String → String → List String → M S (Option GoError)
  unfolding apply_configs apply_sentinel_config
  set_custom_sentinel_config ip master_name configs =
      apply_configs
        (λ parameter value. apply_sentinel_config (sentinel_options ip) parameter master_name value)
        configs

  unfoldable pub set_custom_redis_config : String → List String → String → M S (Option GoError)
  unfolding apply_configs apply_redis_config
  set_custom_redis_config ip configs password =
      apply_configs
        (λ parameter value. apply_redis_config (redis_options ip password) parameter value) configs

  -- The method `SlaveIsReady`
  unfoldable pub slave_is_ready : String → String → M S (Bool × Option GoError)
  unfolding contains
  slave_is_ready ip password = do
    info ← call (env.redis.info (redis_options ip password) "replication")
    pure (elim (info.error) [
      | some err ↦ (false, some err)
      | none ↦ (
        not (contains info.value "master_sync_in_progress:1")
            && not (contains info.value "master_host:127.0.0.1")
            && contains info.value "master_link_status:up",
        none,
      )
    ])
