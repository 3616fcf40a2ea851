-- ===== src/Redis/Config.antt =====
-- Configuration lines: getConfigParameters, and the loops that apply the lines in order.
use mathlib.Core.Path.{subst}
use redis_backup_operator.Base.{
  String, ◌≡◌, refl, ap, ◌∙◌, ◌≢◌, ◌↔◌, ◌⊎◌, inl, inr, true, false, Option, none, some, List, [],
  ◌∷◌, ◌++◌, All, Option-cases, is_none,
}
use redis_backup_operator.Base.Text.{◌+++◌, split, join}
use redis_backup_operator.Base.Text.SplitLaws.{
  Avoids, split-piece, split_one, join-split, split-ne-nil, split-Avoids,
}
use redis_backup_operator.Runtime.{
  ◌>>=◌, M, World, GoError, Outcome, returned, Event, commands, Environment,
}
use redis_backup_operator.Redis.{options_of, sentinel_port, redis_port}
use redis_backup_operator.Redis.Client.{
  config_pieces, get_config_parameters, apply_configs, set_custom_sentinel_config,
  set_custom_redis_config, cmd_error, apply_sentinel_config, apply_redis_config,
}

config_pieces-cons :
    (config p : String) (pieces : List String)
    → pieces ≢ []
    → config_pieces config (p ∷ pieces) ≡ (p, join pieces " ", none)
config_pieces-cons config p [] h = absurd (h refl)
config_pieces-cons config p (q ∷ pieces) h = refl

-- A configuration line of a parameter without a space, a space and any value, spaces included, is
-- read back as the two.
pub get_config_parameters-append :
    (parameter value : String)
    → Avoids " " parameter
    → get_config_parameters (parameter +++ String.◌∷◌ " " value) ≡ (parameter, value, none)
unfolding get_config_parameters
get_config_parameters-append parameter value a =
    ap (config_pieces (parameter +++ String.◌∷◌ " " value)) (split-piece parameter value " " a)
    ∙ config_pieces-cons _ parameter (split value " ") (split-ne-nil value " ")
    ∙ ap (λ v. (parameter, v, none)) (join-split value " ")

abbrev IsWhole : String → List String → Type 0
IsWhole config pieces = (join pieces " " ≡ config) × All (Avoids " ") pieces

pieces-malformed :
    (config : String) (pieces : List String)
    → IsWhole config pieces
    → is_none (config_pieces config pieces).2 ≡ false
    → Avoids " " config
unfolding join
pieces-malformed config [] (whole, a) h = subst (Avoids " ") whole tt
pieces-malformed config (p ∷ []) (whole, a) h = subst (Avoids " ") whole a.0
pieces-malformed config (p ∷ q ∷ pieces) w h = cc

-- A configuration line is refused exactly when it holds no space.
pub get_config_parameters-malformed_iff :
    (config : String) → (is_none (get_config_parameters config).2 ≡ false) ↔ Avoids " " config
unfolding get_config_parameters
get_config_parameters-malformed_iff config = (
  pieces-malformed config (split config " ") (join-split config " ", split-Avoids config " "),
  λ a. ap (λ ps. is_none (config_pieces config ps).2) (split_one config " " a),
)

-- The log after the requests for the lines have been sent in order.
abbrev pub log_all : (String → String → Event) → List String → List Event → List Event
log_all event [] log = log
log_all event (c ∷ cs) log =
    log_all event cs (event (get_config_parameters c).0 (get_config_parameters c).1 ∷ log)

-- Some first part of the lines was requested, in order and nothing else; every line in it is well
-- formed; and either it is all of the lines, or an error is returned.
pub record RequestsPrefix (event : String → String → Event) (configs : List String)
    (before after : List Event) (result : Outcome (Option GoError)) : Type 0 where
  pub requested : List String
  pub left : List String
  pub splits : configs ≡ requested ++ left
  pub well_formed : All (λ c. is_none (get_config_parameters c).2 ≡ true) requested
  pub logged : after ≡ log_all event requested before
  pub error : Option GoError
  pub returns : result ≡ returned error
  pub all_or_error : (left ≡ []) ⊎ (is_none error ≡ false)

module _ {S : Type 0} (env : Environment S) (event : String → String → Event)
    (apply : String → String → M S (Option GoError))
    (answers : (p v : String) (w : World S) → (e : Option GoError) × ((apply p v w).0 ≡ returned e))
    (sends : (p v : String) (w : World S) → (apply p v w).1.log ≡ event p v ∷ w.log) where
  none-RequestsPrefix :
      (c : String) (cs : List String) (w : World S) (err : GoError)
      → RequestsPrefix event (c ∷ cs) w.log w.log (returned (some err))
  none-RequestsPrefix c cs w err = record {
    requested = [];
    left = c ∷ cs;
    splits = refl;
    well_formed = tt;
    logged = refl;
    error = some err;
    returns = refl;
    all_or_error = inr refl;
  }

  one-RequestsPrefix :
      (c : String) (cs : List String) (w : World S) (err : GoError) (after : List Event)
      → (get_config_parameters c).2 ≡ none
      → after ≡ event (get_config_parameters c).0 (get_config_parameters c).1 ∷ w.log
      → RequestsPrefix event (c ∷ cs) w.log after (returned (some err))
  one-RequestsPrefix c cs w err after good sent = record {
    requested = c ∷ [];
    left = cs;
    splits = refl;
    well_formed = (rw good, tt);
    logged = sent;
    error = some err;
    returns = refl;
    all_or_error = inr refl;
  }

  RequestsPrefix-cons :
      (c : String) (cs : List String) (w : World S) (mid after : List Event)
      (r : Outcome (Option GoError))
      → (get_config_parameters c).2 ≡ none
      → mid ≡ event (get_config_parameters c).0 (get_config_parameters c).1 ∷ w.log
      → RequestsPrefix event cs mid after r
      → RequestsPrefix event (c ∷ cs) w.log after r
  RequestsPrefix-cons c cs w mid after r good sent rest = record {
    requested = c ∷ rest.requested;
    left = rest.left;
    splits = ap (λ l. c ∷ l) rest.splits;
    well_formed = (rw good, rest.well_formed);
    logged = rest.logged ∙ ap (log_all event rest.requested) sent;
    error = rest.error;
    returns = rest.returns;
    all_or_error = rest.all_or_error;
  }

  apply_configs-RequestsPrefix :
      (configs : List String) (w : World S)
      → RequestsPrefix event configs w.log
          (apply_configs env apply configs w).1.log
          (apply_configs env apply configs w).0
  unfolding apply_configs
  apply_configs-RequestsPrefix [] w = record {
    requested = [];
    left = [];
    splits = refl;
    well_formed = tt;
    logged = refl;
    error = none;
    returns = refl;
    all_or_error = inl refl;
  }
  apply_configs-RequestsPrefix (c ∷ cs) w = elim (Option-cases (get_config_parameters c).2) [
    | inr (err, bad) ↦ rw (bad, apply_configs) (none-RequestsPrefix c cs w err)
    | inl good ↦
        let p = (get_config_parameters c).0 in
        let v = (get_config_parameters c).1 in
        let sent = sends p v w in
        let (e, answer) = answers p v w in
        elim (Option-cases e) [
          | inr (err, fails) ↦
              rw (good, apply_configs, ◌>>=◌, answer, fails)
                (one-RequestsPrefix c cs w err _ good sent)
          | inl succeeds ↦
              rw (good, apply_configs, ◌>>=◌, answer, succeeds)
                (RequestsPrefix-cons c cs w _ _ _ good sent
                  (apply_configs-RequestsPrefix cs (apply p v w).1))
        ]
  ]

-- `SENTINEL set` for one line
abbrev pub sets_sentinel : String → String → String → String → Event
sets_sentinel ip master_name parameter value =
    commands (options_of ip sentinel_port "")
      ("SENTINEL" ∷ "set" ∷ master_name ∷ parameter ∷ value ∷ [])

-- `CONFIG SET` for one line
abbrev pub sets_redis : String → String → String → String → Event
sets_redis ip password parameter value =
    commands (options_of ip redis_port password) ("CONFIG" ∷ "SET" ∷ parameter ∷ value ∷ [])

module _ {S : Type 0} (env : Environment S) where
  -- Whatever the sentinel answers, SetCustomSentinelConfig returns, and it has sent exactly the
  -- requests for some first part of the lines, in order, all of them well formed: for all lines,
  -- or else it returns an error.
  pub set_custom_sentinel_config-RequestsPrefix :
      (ip master_name : String) (configs : List String) (w : World S)
      → RequestsPrefix
          (sets_sentinel ip master_name)
          configs
          w.log
          (set_custom_sentinel_config env ip master_name configs w).1.log
          (set_custom_sentinel_config env ip master_name configs w).0
  unfolding set_custom_sentinel_config
  set_custom_sentinel_config-RequestsPrefix ip master_name configs w =
      apply_configs-RequestsPrefix env (sets_sentinel ip master_name)
        (λ p v. apply_sentinel_config env (options_of ip sentinel_port "") p master_name v)
        (λ p v w'. (
          cmd_error
              (env.redis.process (options_of ip sentinel_port "")
                ("SENTINEL" ∷ "set" ∷ master_name ∷ p ∷ v ∷ []) w'.cluster).0,
          refl,
        ))
        (λ p v w'. refl) configs w

  -- Whatever the redis answers, SetCustomRedisConfig returns, and it has sent exactly the
  -- requests for some first part of the lines, in order, all of them well formed: for all lines,
  -- or else it returns an error.
  set_custom_redis_config-RequestsPrefix :
      (ip : String) (configs : List String) (password : String) (w : World S)
      → RequestsPrefix
          (sets_redis ip password)
          configs
          w.log
          (set_custom_redis_config env ip configs password w).1.log
          (set_custom_redis_config env ip configs password w).0
  unfolding set_custom_redis_config
  set_custom_redis_config-RequestsPrefix ip configs password w =
      apply_configs-RequestsPrefix env (sets_redis ip password)
        (λ p v. apply_redis_config env (options_of ip redis_port password) p v)
        (λ p v w'.
          ((env.redis.config_set (options_of ip redis_port password) p v w'.cluster).0, refl))
        (λ p v w'. refl) configs w
