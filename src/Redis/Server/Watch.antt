-- ===== src/Redis/Server/Watch.antt =====
-- What the client of redisclient.go reads of a sentinel that it has told what to watch.
use mathlib.Core.Path.{subst}
use redis_backup_operator.Base.{
  none-ne-some, Bool-cases, inl, inr, String, ◌==◌, ◌≡◌, refl, ap, sym, ◌∙◌, true, Option, none,
  some, List, ◌∷◌, [],
}
use redis_backup_operator.Runtime.{
  RedisValue, GoError, World, M, pure, or_panic, ◌>>=◌, commands, Environment, returned,
}
use redis_backup_operator.Redis.{options_of, sentinel_port}
use redis_backup_operator.Redis.Client.{
  text_at, set_auth_pass, monitor_redis_with_port, get_sentinel_monitor,
}
use redis_backup_operator.Redis.Server.{Sentinel}

module _ {S : Type 0} {env : Environment S} (ip : String)
    (sentinel : Sentinel env (options_of ip sentinel_port "")) where
  set_auth_pass-watched :
      (name password host port : String) (w : World S)
      → sentinel.watched_at w.cluster name ≡ some (host, port)
      → ((set_auth_pass env ip name password w).0 ≡ returned none)
        × (sentinel.watched_at (set_auth_pass env ip name password w).1.cluster name
            ≡ some (host, port))
  unfolding set_auth_pass
  set_auth_pass-watched name password host port w on = elim (Bool-cases (password == "")) [
    | inl empty ↦ rw (set_auth_pass, empty) (refl, on)
    | inr full ↦
        let (ok, same) =
          sentinel.authenticates name password w.cluster
            (λ e. none-ne-some (host, port) (sym e ∙ on)) in
        rw (set_auth_pass, full) (ap returned ok, same ∙ on)
  ]

  monitor_redis_with_port-watched :
      (monitor port quorum password name : String) (w : World S)
      → sentinel.takes monitor port quorum ≡ true
      → ((monitor_redis_with_port env ip monitor port quorum password name w).0 ≡ returned none)
        × (sentinel.watched_at
              (monitor_redis_with_port env ip monitor port quorum password name w).1.cluster
              name
            ≡ some (monitor, port))
  unfolding monitor_redis_with_port
  monitor_redis_with_port-watched monitor port quorum password name w takes =
      let options = options_of ip sentinel_port "" in
      let free = sentinel.removes name w.cluster in
      let s1 = (env.redis.process options ("SENTINEL" ∷ "REMOVE" ∷ name ∷ []) w.cluster).1 in
      let (ok, on) = sentinel.monitors name monitor port quorum s1 takes free in
      let w2 : World S = record {
        cluster =
            (env.redis.process options
              ("SENTINEL" ∷ "MONITOR" ∷ name ∷ monitor ∷ port ∷ quorum ∷ []) s1).1;
        log =
            commands options ("SENTINEL" ∷ "MONITOR" ∷ name ∷ monitor ∷ port ∷ quorum ∷ [])
            ∷ commands options ("SENTINEL" ∷ "REMOVE" ∷ name ∷ [])
            ∷ w.log;
      } in
      let continue : Option GoError → M S (Option GoError) =
        λ e. elim e [ some err ↦ pure (some err) | none ↦ set_auth_pass env ip name password ] in
      subst
        (λ r. (r.0 ≡ returned none) × (sentinel.watched_at r.1.cluster name ≡ some (monitor, port)))
        (sym (ap (λ e. continue e w2) ok)) (set_auth_pass-watched name password monitor port w2 on)

  -- The fourth and the sixth element
  abbrev address_in : List RedisValue → M S (String × String × Option GoError)
  address_in items = or_panic (text_at items 3) >>= λ master_ip.
      or_panic (text_at items 5) >>= λ master_port. pure (master_ip, master_port, none)

  -- At a sentinel that does what it is documented to and takes the host, the port and the quorum:
  -- MonitorRedisWithPort returns no error, whether or not the name was in use, and
  -- GetSentinelMonitor then returns the host and the port that it was given.
  pub monitor_redis_with_port-get_sentinel_monitor :
      (monitor port quorum password name : String) (w : World S)
      → sentinel.takes monitor port quorum ≡ true
      → ((monitor_redis_with_port env ip monitor port quorum password name w).0 ≡ returned none)
        × ((get_sentinel_monitor env ip name
              (monitor_redis_with_port env ip monitor port quorum password name w).1).0
            ≡ returned (monitor, port, none))
  unfolding get_sentinel_monitor
  monitor_redis_with_port-get_sentinel_monitor monitor port quorum password name w takes =
      let (fine, on) = monitor_redis_with_port-watched monitor port quorum password name w takes in
      let w1 = (monitor_redis_with_port env ip monitor port quorum password name w).1 in
      let options = options_of ip sentinel_port "" in
      let args = "SENTINEL" ∷ "master" ∷ name ∷ [] in
      let reply = (env.redis.process options args w1.cluster).0 in
      let after : World S = record {
        cluster = (env.redis.process options args w1.cluster).1;
        log = commands options args ∷ w1.log;
      } in
      let (ok, items) = sentinel.describes name monitor port w1.cluster on in
      let answer : Option GoError → List RedisValue → M S (String × String × Option GoError) =
        λ e items. elim e [ some err ↦ pure ("", "", some err) | none ↦ address_in items ] in
      (
        fine,
        ap (λ e. (answer e reply.items after).0) ok
            ∙ ap (λ items. (address_in items after).0) items,
      )
