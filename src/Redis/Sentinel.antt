-- ===== src/Redis/Sentinel.antt =====
-- What the methods of the client send to sentinels and read from their answers.
use redis_backup_operator.Base.{
  ℕ, ◌-◌, ◌%◌, ◌≤◌, ◌<◌, ◌^◌, not, ◌&&◌, String, ◌==◌, ◌≡◌, ◌↔◌, ◌⊎◌, true, Option, none, some,
  List, [], ◌∷◌, pos, negsuc, arith, if◌then◌else◌, is_none, Option-cases, inl, inr,
}
use redis_backup_operator.Base.Text.ContainsLaws.{Occurs, contains_iff, not-contains_iff}
use redis_backup_operator.Runtime.{World, GoError, returned, commands, Environment}
use redis_backup_operator.Redis.{options_of, sentinel_port, redis_port}
use redis_backup_operator.Redis.Regex.{decimal, to_int32, atoi, is_digit, is_lower}
use redis_backup_operator.Redis.Regex.Laws.{IsLeftmost, find_submatch_iff}
use redis_backup_operator.Redis.Client.{
  read_number, is_sentinel_ready, monitor_redis_with_port, cmd_error, slave_is_ready,
}

to_int32-pos : (n : ℕ) → n < 2 ^ 31 → to_int32 n ≡ pos n
unfolding to_int32
to_int32-pos n h = ground arith

to_int32-wraps : (n : ℕ) → 2 ^ 31 ≤ n → n < 2 ^ 32 → (k : ℕ) × (to_int32 n ≡ negsuc k)
unfolding to_int32
to_int32-wraps n lo hi = (2 ^ 32 - 1 - n % 2 ^ 32, ground arith)

atoi-some : (digits : String) → decimal 0 digits < 2 ^ 63 → atoi digits ≡ some (decimal 0 digits)
unfolding atoi
atoi-some digits h = ground arith

module _ (literal missing info digits : String) (ready : IsLeftmost "status=" is_lower "ok" info)
    (number : IsLeftmost literal is_digit digits info) where
  read_number-digits :
      decimal 0 digits < 2 ^ 63
      → read_number literal missing info ≡ (to_int32 (decimal 0 digits), none)
  unfolding read_number is_sentinel_ready
  read_number-digits h = rw (
    read_number,
    (find_submatch_iff "status=" is_lower info "ok").1 ready,
    (find_submatch_iff literal is_digit info digits).1 number,
    atoi-some digits h,
  )

  -- Where the first status is "ok", the digits behind the first occurrence of the literal that
  -- has digits are read as the number that they write, if it is below 2^31.
  pub read_number-exact :
      decimal 0 digits < 2 ^ 31 → read_number literal missing info ≡ (pos (decimal 0 digits), none)
  read_number-exact h = rw (read_number-digits (omega arith), to_int32-pos (decimal 0 digits) h)

  -- Where the first status is "ok", a number from 2^31 up to 2^32 behind the first occurrence of
  -- the literal that has digits is returned as a negative one, with no error.
  pub read_number-wraps :
      2 ^ 31 ≤ decimal 0 digits
      → decimal 0 digits < 2 ^ 32
      → (k : ℕ) × (read_number literal missing info ≡ (negsuc k, none))
  read_number-wraps lo hi =
      let (k, e) = to_int32-wraps (decimal 0 digits) lo hi in
      (k, rw (read_number-digits (omega arith), e))

module _ {S : Type 0} (env : Environment S) where
  module _ (ip monitor port quorum password master_name : String) (w : World S) where
    abbrev removes : List String
    removes = "SENTINEL" ∷ "REMOVE" ∷ master_name ∷ []

    abbrev monitors : List String
    monitors = "SENTINEL" ∷ "MONITOR" ∷ master_name ∷ monitor ∷ port ∷ quorum ∷ []

    abbrev authenticates : List String
    authenticates = "SENTINEL" ∷ "SET" ∷ master_name ∷ "auth-pass" ∷ password ∷ []

    -- The error of the MONITOR command, sent in the state that REMOVE leaves.
    abbrev monitor_error : Option GoError
    monitor_error =
        cmd_error
          (env.redis.process (options_of ip sentinel_port "") monitors
            (env.redis.process (options_of ip sentinel_port "") removes w.cluster).1).0

    -- MonitorRedisWithPort sends REMOVE and then MONITOR, whatever REMOVE answers; it sends the
    -- password exactly when MONITOR is accepted and the password is not empty; and it returns the
    -- error of MONITOR if there is one.
    pub monitor_redis_with_port-log :
        ((monitor_redis_with_port env ip monitor port quorum password master_name w).1.log ≡ (
          if is_none monitor_error && not (password == "")
          then commands (options_of ip sentinel_port "") authenticates
            ∷ commands (options_of ip sentinel_port "") monitors
            ∷ commands (options_of ip sentinel_port "") removes
            ∷ w.log
          else commands (options_of ip sentinel_port "") monitors
            ∷ commands (options_of ip sentinel_port "") removes
            ∷ w.log))
        × (((monitor_redis_with_port env ip monitor port quorum password master_name w).0
              ≡ returned monitor_error)
            ⊎ (monitor_error ≡ none))
    unfolding monitor_redis_with_port
    monitor_redis_with_port-log = elim (Option-cases monitor_error) [
      | inl fine ↦ (ground arith, inr fine)
      | inr (err, fails) ↦ (ground arith, inl (ground arith))
    ]

  -- The method SlaveIsReady answers yes exactly when the replication section was read, says that
  -- the link to the master is up, and says neither that a sync is going on nor that the master is
  -- the local placeholder.
  slave_is_ready_iff :
      (ip password : String) (w : World S)
      → ((slave_is_ready env ip password w).0 ≡ returned (true, none)) ↔ (
          let info =
            (env.redis.info (options_of ip redis_port password) "replication" w.cluster).0 in
          (info.error ≡ none)
          × Occurs "master_link_status:up" info.value
          × (¬ Occurs "master_sync_in_progress:1" info.value)
          × (¬ Occurs "master_host:127.0.0.1" info.value))
  unfolding slave_is_ready
  slave_is_ready_iff ip password w =
      let info = (env.redis.info (options_of ip redis_port password) "replication" w.cluster).0 in
      let up = contains_iff info.value "master_link_status:up" in
      let syncing = not-contains_iff info.value "master_sync_in_progress:1" in
      let pending = not-contains_iff info.value "master_host:127.0.0.1" in
      (
        λ h.
            (ground arith, up.0 (ground arith), syncing.0 (ground arith), pending.0 (ground arith)),
        λ (fine, is_up, not_syncing, not_pending).
            rw (fine, up.1 is_up, syncing.1 not_syncing, pending.1 not_pending),
      )
