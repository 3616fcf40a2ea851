-- ===== src/Redis/Server/Texts.antt =====
-- The searches of the client in a replication section.
use redis_backup_operator.Base.{
  ℕ, if◌then◌else◌, code, Char, String, ◌≡◌, refl, ap, ◌∙◌, ◌≢◌, Bool, true, false, not, ◌||◌,
  nat_eq, none, some, arith,
}
use redis_backup_operator.Base.Text.{◌+++◌, strip_prefix, has_prefix, contains}
use redis_backup_operator.Redis.Regex.{
  take_class, non_empty, match_here, find_submatch, is_digit_or_dot,
}
use redis_backup_operator.Redis.Regex.Laws.{AllOf, take_class-append, non_empty_lem}
use redis_backup_operator.Redis.Server.{is_plain, Link, replica, section, IsQuiet, IsAddressed}

contains-skip :
    (c : Char) (sub h b : String)
    → is_plain (code c) ≡ false
    → AllOf is_plain h
    → contains (h +++ b) (String.◌∷◌ c sub) ≡ contains b (String.◌∷◌ c sub)
unfolding contains strip_prefix
contains-skip c sub String.[] b other plain = refl
contains-skip c sub (String.◌∷◌ d h) b other (is, plain) =
    ground (arith, contains-skip c sub h b other plain)

pub find_submatch-none :
    (lit : String) (cls : ℕ → Bool) (s : String)
    → contains s lit ≡ false
    → find_submatch lit cls s ≡ none
unfolding contains find_submatch match_here
find_submatch-none lit cls String.[] absent = ground arith
find_submatch-none lit cls (String.◌∷◌ c s) absent = ground (arith, find_submatch-none lit cls s)

-- The text goes on with a character that the literal has not.
strip_prefix-stops :
    (lit h b : String) (c : Char)
    → AllOf (λ d. not (nat_eq d (code c))) lit
    → has_prefix (strip_prefix lit (h +++ String.◌∷◌ c b)) ≡ has_prefix (strip_prefix lit h)
unfolding strip_prefix
strip_prefix-stops String.[] h b c other = refl
strip_prefix-stops (String.◌∷◌ d lit) String.[] b c (isnt, other) = ground arith
strip_prefix-stops (String.◌∷◌ d lit) (String.◌∷◌ x h) b c (isnt, other) =
    ground (arith, strip_prefix-stops lit h b c other)

find_submatch-some :
    (lit : String) (cls : ℕ → Bool) (s g : String)
    → match_here lit cls s ≡ some g
    → find_submatch lit cls s ≡ some g
unfolding find_submatch
find_submatch-some lit cls String.[] g e = e
find_submatch-some lit cls (String.◌∷◌ c s) g e = rw (find_submatch, e) refl

plain_digits : (h : String) → AllOf is_digit_or_dot h → AllOf is_plain h
plain_digits String.[] digits = tt
plain_digits (String.◌∷◌ c h) (is, digits) = (rw is refl, plain_digits h digits)

strip_prefix-longer :
    (lit more s : String)
    → has_prefix (strip_prefix lit s) ≡ false
    → has_prefix (strip_prefix (lit +++ more) s) ≡ false
unfolding strip_prefix
strip_prefix-longer String.[] more s absent = ground arith
strip_prefix-longer (String.◌∷◌ c lit) more String.[] absent = refl
strip_prefix-longer (String.◌∷◌ c lit) more (String.◌∷◌ d s) absent =
    ground (arith, strip_prefix-longer lit more s)

-- A text without the literal is without a longer one.
contains-longer : (s lit more : String) → contains s lit ≡ false → contains s (lit +++ more) ≡ false
unfolding contains
contains-longer String.[] lit more absent = strip_prefix-longer lit more "" absent
contains-longer (String.◌∷◌ c s) lit more absent =
    ground (arith, strip_prefix-longer lit more (String.◌∷◌ c s), contains-longer s lit more)

or_false : (b : Bool) → (b || false) ≡ b
or_false true = refl
or_false false = refl

module _ (l : Link) (rest : String) where
  abbrev after_io : String
  after_io = "\r\nmaster_sync_in_progress:" +++ (if l.syncing then "1" else "0") +++ "\r\n" +++ rest

  abbrev after_status : String
  after_status = "\r\nmaster_last_io_seconds_ago:" +++ l.last_io +++ after_io

  abbrev after_port : String
  after_port = "\r\nmaster_link_status:" +++ (if l.up then "up" else "down") +++ after_status

  abbrev after_host : String
  after_host = "\r\nmaster_port:" +++ l.port +++ after_port

  pub section-host :
      AllOf is_digit_or_dot l.host
      → l.host ≢ ""
      → find_submatch "master_host:" is_digit_or_dot (section (replica l) rest) ≡ some l.host
  unfolding find_submatch match_here strip_prefix take_class
  section-host digits full =
      find_submatch-some "master_host:" is_digit_or_dot ("master_host:" +++ l.host +++ after_host)
        l.host
        (ap non_empty (take_class-append is_digit_or_dot l.host after_host digits refl)
          ∙ non_empty_lem l.host full)

  module _ (quiet : IsQuiet rest) (addressed : IsAddressed (replica l)) where
    -- What a search that no number and no address begins finds behind the host: whatever it finds
    -- in the lines of the link status and of the sync, and in the rest.
    module _ (c : Char) (sub : String) (finds_status finds_sync : Bool → Bool)
        (other : is_plain (code c) ≡ false)
        (over_port : (b : String)
          → contains ("\r\nmaster_port:" +++ b) (String.◌∷◌ c sub) ≡ contains b (String.◌∷◌ c sub))
        (over_up : (b : String)
          → contains ("\r\nmaster_link_status:up" +++ b) (String.◌∷◌ c sub)
            ≡ finds_status true || contains b (String.◌∷◌ c sub))
        (over_down : (b : String)
          → contains ("\r\nmaster_link_status:down" +++ b) (String.◌∷◌ c sub)
            ≡ finds_status false || contains b (String.◌∷◌ c sub))
        (over_io : (b : String)
          → contains ("\r\nmaster_last_io_seconds_ago:" +++ b) (String.◌∷◌ c sub)
            ≡ contains b (String.◌∷◌ c sub))
        (over_on : (b : String)
          → contains ("\r\nmaster_sync_in_progress:1\r\n" +++ b) (String.◌∷◌ c sub)
            ≡ finds_sync true || contains b (String.◌∷◌ c sub))
        (over_off : (b : String)
          → contains ("\r\nmaster_sync_in_progress:0\r\n" +++ b) (String.◌∷◌ c sub)
            ≡ finds_sync false || contains b (String.◌∷◌ c sub)) where
      over_status :
          (u : Bool) (b : String)
          → contains
              ("\r\nmaster_link_status:" +++ (if u then "up" else "down") +++ b)
              (String.◌∷◌ c sub)
            ≡ finds_status u || contains b (String.◌∷◌ c sub)
      over_status true b = over_up b
      over_status false b = over_down b

      over_sync :
          (y : Bool) (b : String)
          → contains
              ("\r\nmaster_sync_in_progress:" +++ (if y then "1" else "0") +++ "\r\n" +++ b)
              (String.◌∷◌ c sub)
            ≡ finds_sync y || contains b (String.◌∷◌ c sub)
      over_sync true b = over_on b
      over_sync false b = over_off b

      contains-lines :
          contains (l.host +++ after_host) (String.◌∷◌ c sub)
          ≡ finds_status l.up || (finds_sync l.syncing || contains rest (String.◌∷◌ c sub))
      contains-lines =
          contains-skip c sub l.host after_host other (plain_digits l.host addressed.0.0)
          ∙ over_port (l.port +++ after_port)
          ∙ contains-skip c sub l.port after_port other addressed.1
          ∙ over_status l.up after_status
          ∙ ap (λ x. finds_status l.up || x)
              (over_io (l.last_io +++ after_io)
                ∙ contains-skip c sub l.last_io after_io other addressed.2
                ∙ over_sync l.syncing rest)

    pub section-role : contains (section (replica l) rest) "role:master" ≡ false
    unfolding contains strip_prefix
    section-role =
        contains-lines "r" "ole:master" (λ u. false) (λ y. false) refl (λ b. refl) (λ b. refl)
          (λ b. refl) (λ b. refl) (λ b. refl) (λ b. refl)
        ∙ quiet.0

    pub section-link : contains (section (replica l) rest) "master_link_status:up" ≡ l.up
    unfolding contains strip_prefix
    section-link =
        contains-lines "m" "aster_link_status:up" (λ u. u) (λ y. false) refl (λ b. refl) (λ b. refl)
          (λ b. refl) (λ b. refl) (λ b. refl) (λ b. refl)
        ∙ ap (λ x. l.up || x) quiet.2
        ∙ or_false l.up

    pub section-sync : contains (section (replica l) rest) "master_sync_in_progress:1" ≡ l.syncing
    unfolding contains strip_prefix
    section-sync =
        contains-lines "m" "aster_sync_in_progress:1" (λ u. false) (λ y. y) refl (λ b. refl)
          (λ b. refl) (λ b. refl) (λ b. refl) (λ b. refl) (λ b. refl)
        ∙ ap (λ x. l.syncing || x) quiet.3
        ∙ or_false l.syncing

    pub section-local :
        contains (section (replica l) rest) "master_host:127.0.0.1"
        ≡ has_prefix (strip_prefix "127.0.0.1" l.host)
    unfolding contains strip_prefix
    section-local =
        ap (λ x. has_prefix (strip_prefix "127.0.0.1" (l.host +++ after_host)) || x)
          (contains-lines "m" "aster_host:127.0.0.1" (λ u. false) (λ y. false) refl (λ b. refl)
              (λ b. refl) (λ b. refl) (λ b. refl) (λ b. refl) (λ b. refl)
            ∙ contains-longer rest "master_host:" "127.0.0.1" quiet.1)
        ∙ or_false (has_prefix (strip_prefix "127.0.0.1" (l.host +++ after_host)))
        ∙ strip_prefix-stops "127.0.0.1" l.host _ "\r"
            (refl, (refl, (refl, (refl, (refl, (refl, (refl, (refl, (refl, tt)))))))))
