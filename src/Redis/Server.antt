-- ===== src/Redis/Server.antt =====
-- A redis server and a sentinel as the client of redisclient.go sees them: what they are documented
-- to answer, and to do. A server is the master or follows one, and its replication section says so;
-- a sentinel watches masters by name.
pub mod Texts
pub mod Replies
pub mod Watch
use redis_backup_operator.Base.{
  String, ◌==◌, ◌≡◌, ◌≢◌, Bool, true, false, not, ◌&&◌, ◌||◌, Option, none, some, List, ◌∷◌, [],
  nat_eq, ℕ, if◌then◌else◌,
}
use redis_backup_operator.Base.Text.{◌+++◌, strip_prefix, has_prefix, contains}
use redis_backup_operator.Runtime.{Reply, Options, RedisValue, text, CmdReply, GoError, Environment}
use redis_backup_operator.Redis.Regex.{is_digit_or_dot}
use redis_backup_operator.Redis.Regex.Laws.{AllOf}
use redis_backup_operator.Redis.Client.{cmd_error}

-- What a replica says of its link to the master
pub record Link : Type 0 where
  pub host : String
  pub port : String
  pub up : Bool
  pub last_io : String
  pub syncing : Bool

pub data Role : Type 0 where
  master : Role
  replica : Link → Role

-- The replication section of INFO, up to what both roles go on with.
abbrev pub section : Role → String → String
section master rest = "# Replication\r\nrole:master\r\n" +++ rest
section (replica l) rest =
    "# Replication\r\nrole:slave\r\nmaster_host:"
    +++ l.host
    +++ "\r\nmaster_port:"
    +++ l.port
    +++ "\r\nmaster_link_status:"
    +++ (if l.up then "up" else "down")
    +++ "\r\nmaster_last_io_seconds_ago:"
    +++ l.last_io
    +++ "\r\nmaster_sync_in_progress:"
    +++ (if l.syncing then "1" else "0")
    +++ "\r\n"
    +++ rest

-- The characters of numbers and of IPv4 addresses
abbrev pub is_plain : ℕ → Bool
is_plain c = is_digit_or_dot c || nat_eq c b'-'

-- Nothing that the client looks for stands in the text.
abbrev pub IsQuiet : String → Type 0
IsQuiet rest =
    (contains rest "role:master" ≡ false)
    × (contains rest "master_host:" ≡ false)
    × (contains rest "master_link_status:up" ≡ false)
    × (contains rest "master_sync_in_progress:1" ≡ false)

-- An IPv4 address, as far as the client looks at it
abbrev pub IsAddress : String → Type 0
IsAddress host = AllOf is_digit_or_dot host × (host ≢ "")

-- A replica follows a master that is given by its address.
abbrev pub IsAddressed : Role → Type 0
IsAddressed master = Unit
IsAddressed (replica l) = IsAddress l.host × AllOf is_plain l.port × AllOf is_plain l.last_io

-- The server that listens at the address of the options and takes their password.
pub record Server {S : Type 0} (env : Environment S) (options : Options) : Type 0 where
  pub role_at : S → Role
  pub rest_at : S → String
  pub quiet : (s : S) → IsQuiet (rest_at s)
  pub info :
      (s : S)
      → env.redis.info options "replication" s
        ≡ (record { value = section (role_at s) (rest_at s); error = none }, s)
  -- `SLAVEOF NO ONE` makes it a master,
  pub promotes :
      (s : S)
      → ((env.redis.slave_of options "NO" "ONE" s).0 ≡ none)
        × (role_at (env.redis.slave_of options "NO" "ONE" s).1 ≡ master)
  -- and `SLAVEOF` with an address and a port makes it a replica; the link comes up later.
  pub follows :
      (host port : String) (s : S)
      → IsAddress host
      → AllOf is_plain port
      → (l : Link) × ((env.redis.slave_of options host port s).0 ≡ none)
        × (role_at (env.redis.slave_of options host port s).1 ≡ replica l)
        × (l.host ≡ host)
        × (l.port ≡ port)
        × AllOf is_plain l.last_io

abbrev pub IsAccepted : CmdReply → Type 0
IsAccepted reply = cmd_error reply ≡ none

-- The sentinel that listens at the address of the options.
pub record Sentinel {S : Type 0} (env : Environment S) (options : Options) : Type 0 where
  -- the host and the port of a master that is watched under the name
  pub watched_at : S → String → Option (String × String)
  -- the host, the port and the quorum that it takes
  pub takes : String → String → String → Bool
  pub more : S → List RedisValue
  -- `SENTINEL REMOVE` is refused where the name is not known.
  pub removes :
      (name : String) (s : S)
      → watched_at (env.redis.process options ("SENTINEL" ∷ "REMOVE" ∷ name ∷ []) s).1 name ≡ none
  -- `SENTINEL MONITOR` is refused where the name is in use.
  pub monitors :
      (name host port quorum : String) (s : S)
      → takes host port quorum ≡ true
      → watched_at s name ≡ none
      → (let (reply, after) =
            env.redis.process options
              ("SENTINEL" ∷ "MONITOR" ∷ name ∷ host ∷ port ∷ quorum ∷ [])
              s in
          IsAccepted reply × (watched_at after name ≡ some (host, port)))
  pub authenticates :
      (name password : String) (s : S)
      → watched_at s name ≢ none
      → (let (reply, after) =
            env.redis.process options ("SENTINEL" ∷ "SET" ∷ name ∷ "auth-pass" ∷ password ∷ []) s in
          IsAccepted reply × (watched_at after name ≡ watched_at s name))
  -- `SENTINEL master` lists names and values in turn.
  pub describes :
      (name host port : String) (s : S)
      → watched_at s name ≡ some (host, port)
      → (let reply = (env.redis.process options ("SENTINEL" ∷ "master" ∷ name ∷ []) s).0 in
          IsAccepted reply
          × (reply.items
              ≡ text "name" ∷ text name ∷ text "ip" ∷ text host ∷ text "port" ∷ text port ∷ more s))
