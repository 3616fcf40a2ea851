-- ===== src/Redis/Server/Replies.antt =====
-- What the client of redisclient.go reads of a redis server that it has set up.
use mathlib.Core.Path.{subst}
use redis_backup_operator.Base.{
  String, ◌≡◌, refl, ap, sym, ◌∙◌, Bool, true, false, not, ◌&&◌, Option, none, some,
}
use redis_backup_operator.Base.Text.{strip_prefix, has_prefix, contains}
use redis_backup_operator.Runtime.{GoError, World, Environment, returned}
use redis_backup_operator.Redis.{options_of, redis_port}
use redis_backup_operator.Redis.Regex.{find_submatch, match_here, is_digit_or_dot}
use redis_backup_operator.Redis.Regex.Laws.{AllOf}
use redis_backup_operator.Redis.Client.{
  get_slave_of, is_master, slave_is_ready, make_master, make_slave_of_with_port, make_slave_of,
}
use redis_backup_operator.Redis.Server.{
  Role, Link, master, replica, section, Server, IsQuiet, IsAddress, IsAddressed, is_plain,
}
use redis_backup_operator.Redis.Server.Texts.{
  section-host, section-role, section-link, section-sync, section-local, find_submatch-none,
}

-- What the client is to say of the role.
abbrev pub is_primary : Role → Bool
is_primary master = true
is_primary (replica l) = false

abbrev pub master_of : Role → String
master_of master = ""
master_of (replica l) = l.host

-- In step with a master that is not the placeholder 127.0.0.1
abbrev pub in_step : Role → Bool
in_step master = false
in_step (replica l) = not l.syncing && not (has_prefix (strip_prefix "127.0.0.1" l.host)) && l.up

section-primary :
    (r : Role) (rest : String)
    → IsQuiet rest
    → IsAddressed r
    → contains (section r rest) "role:master" ≡ is_primary r
unfolding contains strip_prefix
section-primary master rest quiet formed = refl
section-primary (replica l) rest quiet formed = section-role l rest quiet formed

-- What `get_slave_of` makes of its search
abbrev answer_of : Option String → String × Option GoError
answer_of none = ("", none)
answer_of (some host) = (host, none)

-- The master that stands in the section
section-master_of :
    (r : Role) (rest : String)
    → IsQuiet rest
    → IsAddressed r
    → answer_of (find_submatch "master_host:" is_digit_or_dot (section r rest))
      ≡ (master_of r, none)
unfolding find_submatch match_here strip_prefix
section-master_of master rest quiet formed =
    ap answer_of (find_submatch-none "master_host:" is_digit_or_dot rest quiet.1)
section-master_of (replica l) rest quiet formed =
    ap answer_of (section-host l rest formed.0.0 formed.0.1)

none_of : (a b : Bool) → (a && b && false) ≡ false
none_of true true = refl
none_of true false = refl
none_of false b = refl

section-in_step :
    (r : Role) (rest : String)
    → IsQuiet rest
    → IsAddressed r
    → (not (contains (section r rest) "master_sync_in_progress:1")
        && not (contains (section r rest) "master_host:127.0.0.1")
        && contains (section r rest) "master_link_status:up")
      ≡ in_step r
unfolding contains strip_prefix
section-in_step master rest quiet formed = rw quiet.2 (
    none_of (not (contains rest "master_sync_in_progress:1"))
      (not (contains rest "master_host:127.0.0.1")))
section-in_step (replica l) rest quiet formed =
    rw
      (
        section-sync l rest quiet formed,
        section-local l rest quiet formed,
        section-link l rest quiet formed,
      )
      refl

module _ {S : Type 0} {env : Environment S} (ip password : String)
    (server : Server env (options_of ip redis_port password)) where
  -- The three readers say what the role says.
  abbrev pub Reads : World S → Role → Type 0
  Reads w r =
      ((is_master env ip password w).0 ≡ returned (is_primary r, none))
      × ((get_slave_of env ip password w).0 ≡ returned (master_of r, none))
      × ((slave_is_ready env ip password w).0 ≡ returned (in_step r, none))

  -- A server that listens at the address and takes the password, and whose section is the
  -- documented one, with the master given by an IPv4 address: IsMaster answers whether it is the
  -- master, GetSlaveOf the address of its master ("" if it is the master itself), and SlaveIsReady
  -- whether it is a replica whose link is up, which is not syncing, and whose master's address
  -- does not begin with 127.0.0.1.
  pub role_at-Reads :
      (w : World S) → IsAddressed (server.role_at w.cluster) → Reads w (server.role_at w.cluster)
  unfolding is_master get_slave_of slave_is_ready
  role_at-Reads w formed =
      let r = server.role_at w.cluster in
      let rest = server.rest_at w.cluster in
      let quiet = server.quiet w.cluster in
      (
        ap
              (λ reply. returned (elim (reply.0.error) [
                | some err ↦ (false, some err)
                | none ↦ (contains reply.0.value "role:master", none)
              ]))
              (server.info w.cluster)
            ∙ ap (λ b. returned (b, none)) (section-primary r rest quiet formed),
        ap
              (λ reply. returned (elim (reply.0.error) [
                | some err ↦ ("", some err)
                | none ↦ answer_of (find_submatch "master_host:" is_digit_or_dot reply.0.value)
              ]))
              (server.info w.cluster)
            ∙ ap returned (section-master_of r rest quiet formed),
        ap
              (λ reply. returned (elim (reply.0.error) [
                | some err ↦ (false, some err)
                | none ↦ (
                  not (contains reply.0.value "master_sync_in_progress:1")
                      && not (contains reply.0.value "master_host:127.0.0.1")
                      && contains reply.0.value "master_link_status:up",
                  none,
                )
              ]))
              (server.info w.cluster)
            ∙ ap (λ b. returned (b, none)) (section-in_step r rest quiet formed),
      )

  -- MakeMaster, and what the server is then
  make_master-master :
      (w : World S)
      → ((make_master env ip password w).0 ≡ returned none)
        × (server.role_at (make_master env ip password w).1.cluster ≡ master)
  unfolding make_master
  make_master-master w = (ap returned (server.promotes w.cluster).0, (server.promotes w.cluster).1)

  make_slave_of-replica :
      (master_ip : String) (w : World S)
      → IsAddress master_ip
      → (l : Link) × ((make_slave_of env ip master_ip password w).0 ≡ returned none)
        × (server.role_at (make_slave_of env ip master_ip password w).1.cluster ≡ replica l)
        × (l.host ≡ master_ip)
        × IsAddressed (replica l)
  unfolding make_slave_of make_slave_of_with_port
  make_slave_of-replica master_ip w address =
      let plain : AllOf is_plain redis_port = (refl, (refl, (refl, (refl, tt)))) in
      let (l, fine, now, host, port, io) =
        server.follows master_ip redis_port w.cluster address plain in
      (
        l,
        ap returned fine,
        now,
        host,
        (subst IsAddress (sym host) address, subst (AllOf is_plain) (sym port) plain, io),
      )

module _ {S : Type 0} {env : Environment S} (ip other_ip password : String)
    (server : Server env (options_of ip redis_port password))
    (other : Server env (options_of other_ip redis_port password)) where
  -- What the one server does leaves the role of the other.
  abbrev pub IsApart : Type 0
  IsApart =
      (host port : String) (s : S)
      → server.role_at (env.redis.slave_of (options_of other_ip redis_port password) host port s).1
        ≡ server.role_at s

  abbrev pub promoted : World S → World S
  promoted w = (make_master env ip password w).1

  abbrev pub attached : World S → World S
  attached w = (make_slave_of env other_ip ip password (promoted w)).1

  make_slave_of-keeps :
      IsApart
      → (w : World S)
      → server.role_at (make_slave_of env other_ip ip password w).1.cluster
        ≡ server.role_at w.cluster
  unfolding make_slave_of make_slave_of_with_port
  make_slave_of-keeps apart w = apart ip redis_port w.cluster

  -- Of two servers with the password, at IPv4 addresses, that do what they are documented to and
  -- of which what the second does leaves the first: after MakeMaster on the first and then
  -- MakeSlaveOf on the second, with the address of the first, both calls have returned no error,
  -- the client reads that the first is the master and follows none, and that the second is not and
  -- follows the first.
  pub make_master-make_slave_of :
      (w : World S)
      → IsAddress ip
      → IsApart
      → ((make_master env ip password w).0 ≡ returned none)
        × ((make_slave_of env other_ip ip password (promoted w)).0 ≡ returned none)
        × ((is_master env ip password (attached w)).0 ≡ returned (true, none))
        × ((get_slave_of env ip password (attached w)).0 ≡ returned ("", none))
        × ((is_master env other_ip password (attached w)).0 ≡ returned (false, none))
        × ((get_slave_of env other_ip password (attached w)).0 ≡ returned (ip, none))
  make_master-make_slave_of w address apart =
      let (fine, first) = make_master-master ip password server w in
      let (l, well, second, host, formed) =
        make_slave_of-replica other_ip password other ip (promoted w) address in
      let still : server.role_at (attached w).cluster ≡ master =
        make_slave_of-keeps apart (promoted w) ∙ first in
      let (is, follows_none, _) =
        role_at-Reads ip password server (attached w) (subst IsAddressed (sym still) tt) in
      let (isnt, follows_ip, _) =
        role_at-Reads other_ip password other (attached w)
          (subst IsAddressed (sym second) formed) in
      (
        fine,
        well,
        is ∙ ap (λ r. returned (is_primary r, none)) still,
        follows_none ∙ ap (λ r. returned (master_of r, none)) still,
        isnt ∙ ap (λ r. returned (is_primary r, none)) second,
        follows_ip
            ∙ ap (λ r. returned (master_of r, none)) second
            ∙ ap (λ h. returned (h, none)) host,
      )
