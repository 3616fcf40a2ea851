-- ===== src/Scheme/Documented.antt =====
-- What the third-party code of schemes is documented to do, and which Go types are served.
use mathlib.Core.List.{Memᴰ}
use mathlib.Core.Path.{subst}
use redis_backup_operator.Base.{◌≡◌, refl, ◌⊎◌, ◌↔◌, sym, inl, inr, none, List}
use redis_backup_operator.Setup.{
  ObjectKind, redis_backups, redis_clones, redisoperates, jobs, cron_jobs, cron_jobs_v1beta1,
}
use redis_backup_operator.Scheme.{
  GoType, object, list_of, pod, pod_list, secret, redis_failover, redis_failover_list, meta_v1,
  GroupVersion, SchemeLibrary, with_list,
}

-- The kinds of this repository
abbrev pub IsOwn : ObjectKind → Type 0
IsOwn redis_backups = Unit
IsOwn redis_clones = Unit
IsOwn redisoperates = Unit
IsOwn jobs = ⊥
IsOwn cron_jobs = ⊥
IsOwn cron_jobs_v1beta1 = ⊥

-- The types of the repository that are served
abbrev pub IsServed : GoType → Type 0
IsServed (object kind) = IsOwn kind
IsServed (list_of kind) = IsOwn kind
IsServed pod = ⊥
IsServed pod_list = ⊥
IsServed secret = ⊥
IsServed redis_failover = ⊥
IsServed redis_failover_list = ⊥
IsServed meta_v1 = ⊥

-- The types of client-go, which adds those of meta/v1 too
abbrev pub IsKubernetes : GoType → Type 0
IsKubernetes (object kind) = ¬ IsOwn kind
IsKubernetes (list_of kind) = ¬ IsOwn kind
IsKubernetes pod = Unit
IsKubernetes pod_list = Unit
IsKubernetes secret = Unit
IsKubernetes redis_failover = ⊥
IsKubernetes redis_failover_list = ⊥
IsKubernetes meta_v1 = Unit

-- The types of meta/v1 that every group version has
abbrev pub IsMeta : GoType → Type 0
IsMeta (object kind) = ⊥
IsMeta (list_of kind) = ⊥
IsMeta pod = ⊥
IsMeta pod_list = ⊥
IsMeta secret = ⊥
IsMeta redis_failover = ⊥
IsMeta redis_failover_list = ⊥
IsMeta meta_v1 = Unit

-- What the third-party code is documented to do: a scheme knows what was added to it, and a builder
-- adds the types of meta/v1 with each registration.
pub record Documented {B Sch C R : Type 0} (lib : SchemeLibrary B Sch C R) : Type 1 where
  pub IsRegistered : B → GoType → Type 0
  pub Knows : Sch → GoType → Type 0
  pub new_builder : (v : GroupVersion) (t : GoType) → ¬ IsRegistered (lib.new_builder v) t
  pub register :
      (ts : List GoType) (b : B) (t : GoType)
      → IsRegistered (lib.register ts b) t ↔ (Memᴰ t ts ⊎ (IsRegistered b t ⊎ IsMeta t))
  pub new_scheme : (t : GoType) → ¬ Knows lib.new_scheme t
  pub add_to_scheme :
      (b : B) (s : Sch) (t : GoType)
      → (lib.add_to_scheme b s).0 ≡ none
      → Knows (lib.add_to_scheme b s).1 t ↔ (IsRegistered b t ⊎ Knows s t)
  pub client_go :
      (s : Sch) (t : GoType)
      → (lib.client_go s).0 ≡ none
      → Knows (lib.client_go s).1 t ↔ (IsKubernetes t ⊎ Knows s t)

with_list-IsServed :
    (kind : ObjectKind) (t : GoType) → IsOwn kind → Memᴰ t (with_list kind) → IsServed t
with_list-IsServed kind t own (Memᴰ.head e) = subst IsServed (sym e) own
with_list-IsServed kind t own (Memᴰ.tail (Memᴰ.head e)) = subst IsServed (sym e) own
with_list-IsServed kind t own (Memᴰ.tail (Memᴰ.tail m)) = elim m [ ]

-- The three registrations, one after the other
abbrev pub IsInit : GoType → Type 0
IsInit t =
    Memᴰ t (with_list redisoperates)
    ⊎ (Memᴰ t (with_list redis_clones) ⊎ Memᴰ t (with_list redis_backups))

pub IsInit-IsServed : (t : GoType) → IsInit t → IsServed t
IsInit-IsServed t (inl m) = with_list-IsServed redisoperates t tt m
IsInit-IsServed t (inr (inl m)) = with_list-IsServed redis_clones t tt m
IsInit-IsServed t (inr (inr m)) = with_list-IsServed redis_backups t tt m

pub IsServed-IsInit : (t : GoType) → IsServed t → IsInit t
IsServed-IsInit (object redis_backups) h = inr (inr (Memᴰ.head refl))
IsServed-IsInit (object redis_clones) h = inr (inl (Memᴰ.head refl))
IsServed-IsInit (object redisoperates) h = inl (Memᴰ.head refl)
IsServed-IsInit (list_of redis_backups) h = inr (inr (Memᴰ.tail (Memᴰ.head refl)))
IsServed-IsInit (list_of redis_clones) h = inr (inl (Memᴰ.tail (Memᴰ.head refl)))
IsServed-IsInit (list_of redisoperates) h = inl (Memᴰ.tail (Memᴰ.head refl))
IsServed-IsInit (object jobs) h = absurd h
IsServed-IsInit (object cron_jobs) h = absurd h
IsServed-IsInit (object cron_jobs_v1beta1) h = absurd h
IsServed-IsInit (list_of jobs) h = absurd h
IsServed-IsInit (list_of cron_jobs) h = absurd h
IsServed-IsInit (list_of cron_jobs_v1beta1) h = absurd h
IsServed-IsInit pod h = absurd h
IsServed-IsInit pod_list h = absurd h
IsServed-IsInit secret h = absurd h
IsServed-IsInit redis_failover h = absurd h
IsServed-IsInit redis_failover_list h = absurd h
IsServed-IsInit meta_v1 h = absurd h
