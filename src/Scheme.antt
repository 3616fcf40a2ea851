-- ===== src/Scheme.antt =====
-- The Go types that the process serializes: the registrations of api/v1alpha1, the scheme that
-- main.go hands to the manager, and the REST client of groupversion_info.go. Schemes, builders and
-- clients are third-party code.
pub mod Documented
pub mod Known
use redis_backup_operator.Base.{String, Bool, true, false, Option, none, some, List, [], ◌∷◌}
use redis_backup_operator.Runtime.{Outcome, returned, panicked, exited, GoError, Reply}
use redis_backup_operator.Setup.{
  ObjectKind, redis_backups, redis_clones, redisoperates, jobs, cron_jobs, cron_jobs_v1beta1,
}

-- A struct of a kind, and the struct of its lists; the types that no controller watches; and the
-- types of meta/v1 that a builder adds to its group version.
pub data GoType : Type 0 where
  object list_of : ObjectKind → GoType
  pod pod_list secret : GoType
  redis_failover redis_failover_list : GoType
  meta_v1 : GoType

pub record GroupVersion : Type 0 where
  pub group : String
  pub version : String

-- `GroupVersion`
abbrev pub group_version : GroupVersion
group_version = record { group = "operator.bobfintech.com"; version = "v1alpha1" }

-- `rest.Config`: what NewClient sets, and the rest. `codecs` is the scheme of the serializer.
pub record RestConfig (Sch C : Type 0) : Type 0 where
  pub connection : C
  pub group_version : Option GroupVersion
  pub api_path : String
  pub content_type : String
  pub user_agent : String
  pub codecs : Option Sch

-- The calls of apimachinery, client-go and controller-runtime, with `B` for `scheme.Builder`, `Sch`
-- for `runtime.Scheme` and `R` for `rest.RESTClient`.
pub record SchemeLibrary (B Sch C R : Type 0) : Type 0 where
  pub new_builder : GroupVersion → B
  pub register : List GoType → B → B
  pub add_to_scheme : B → Sch → Option GoError × Sch
  pub new_scheme : Sch
  -- `clientgoscheme.AddToScheme`
  pub client_go : Sch → Option GoError × Sch
  -- `rest.DefaultKubernetesUserAgent()`
  pub default_user_agent : String
  pub rest_client_for : RestConfig Sch C → Reply R

-- `utilruntime.Must`
abbrev pub must : {Sch : Type 0} → Option GoError × Sch → Outcome Sch
must (none, s) = returned s
must (some err, s) = panicked

abbrev pub and_then : {A B : Type 0} → Outcome A → (A → Outcome B) → Outcome B
and_then (returned a) f = f a
and_then panicked f = panicked
and_then exited f = exited

-- A type and its list, which one `init` of the package registers
abbrev pub with_list : ObjectKind → List GoType
with_list kind = object kind ∷ list_of kind ∷ []

module _ {B Sch C R : Type 0} (lib : SchemeLibrary B Sch C R) where
  -- `SchemeBuilder`, behind the three `init` functions of the package, which run before `main`'s
  unfoldable pub scheme_builder : B
  scheme_builder = lib.register (with_list redisoperates) (
      lib.register (with_list redis_clones)
        (lib.register (with_list redis_backups) (lib.new_builder group_version)))

  -- `init` of main.go
  unfoldable pub init : Outcome Sch
  unfolding scheme_builder
  init =
      and_then (must (lib.client_go lib.new_scheme))
        (λ scheme. must (lib.add_to_scheme scheme_builder scheme))

  -- The copy of the configuration that NewClient hands on
  abbrev pub typed_config : Sch → RestConfig Sch C → RestConfig Sch C
  typed_config scheme cfg = record {
    connection = cfg.connection;
    group_version = some group_version;
    api_path = "/apis";
    content_type = "application/json";
    user_agent = lib.default_user_agent;
    codecs = some scheme;
  }

  -- `nil, err` or `client, nil`
  abbrev pub client_or_error : Reply R → Option R × Option GoError
  client_or_error reply = elim (reply.error) [
    | some err ↦ (none, some err)
    | none ↦ (some reply.value, none)
  ]

  unfoldable pub new_client : RestConfig Sch C → Outcome (Option R × Option GoError)
  unfolding scheme_builder
  new_client cfg =
      and_then (must (lib.add_to_scheme scheme_builder lib.new_scheme))
        (λ scheme. returned (client_or_error (lib.rest_client_for (typed_config scheme cfg))))
