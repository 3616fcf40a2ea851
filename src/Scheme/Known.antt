-- ===== src/Scheme/Known.antt =====
-- Which Go types the scheme of the manager and that of the REST client know.
use mathlib.Core.Path.{subst}
use redis_backup_operator.Base.{
  none-ne-some, ◌∙◌, ◌≡◌, refl, ◌⊎◌, ◌↔◌, ap, sym, inl, inr, Option, none, some, Option-cases, ◌≢◌,
}
use redis_backup_operator.Runtime.{Outcome, returned, panicked, exited, GoError, Reply}
use redis_backup_operator.Setup.{
  ObjectKind, redis_backups, redis_clones, redisoperates, jobs, cron_jobs, cron_jobs_v1beta1,
}
use redis_backup_operator.Scheme.Documented.{
  IsOwn, IsServed, IsKubernetes, IsMeta, Documented, IsInit-IsServed, IsServed-IsInit,
}
use redis_backup_operator.Scheme.{
  GoType, object, list_of, pod, pod_list, secret, redis_failover, redis_failover_list, meta_v1,
  group_version, SchemeLibrary, RestConfig, must, and_then, with_list, scheme_builder, init,
  typed_config, client_or_error, new_client,
}

and_then-returned :
    {A B : Type 0} (o : Outcome A) (f : A → Outcome B) (b : B)
    → and_then o f ≡ returned b
    → (a : A) × (o ≡ returned a) × (f a ≡ returned b)
and_then-returned (returned a) f b e = (a, refl, e)
and_then-returned panicked f b e = cc
and_then-returned exited f b e = cc

must-fine : {Sch : Type 0} (r : Option GoError × Sch) → r.0 ≡ none → must r ≡ returned r.1
must-fine (none, x) e = refl
must-fine (some err, x) e = cc

must-panics :
    {Sch : Type 0} (r : Option GoError × Sch) (err : GoError) → r.0 ≡ some err → must r ≡ panicked
must-panics (none, x) err e = cc
must-panics (some other, x) err e = refl

must-returned :
    {Sch : Type 0} (r : Option GoError × Sch) (s : Sch)
    → must r ≡ returned s
    → (r.0 ≡ none) × (r.1 ≡ s)
must-returned (none, x) s e = (refl, cc)
must-returned (some err, x) s e = cc

IsOwn-cases : (kind : ObjectKind) → IsOwn kind ⊎ (¬ IsOwn kind)
IsOwn-cases redis_backups = inl tt
IsOwn-cases redis_clones = inl tt
IsOwn-cases redisoperates = inl tt
IsOwn-cases jobs = inr (λ h. h)
IsOwn-cases cron_jobs = inr (λ h. h)
IsOwn-cases cron_jobs_v1beta1 = inr (λ h. h)

IsMeta-IsKubernetes : (t : GoType) → IsMeta t → IsKubernetes t
IsMeta-IsKubernetes meta_v1 h = tt
IsMeta-IsKubernetes (object kind) h = absurd h
IsMeta-IsKubernetes (list_of kind) h = absurd h
IsMeta-IsKubernetes pod h = absurd h
IsMeta-IsKubernetes pod_list h = absurd h
IsMeta-IsKubernetes secret h = absurd h
IsMeta-IsKubernetes redis_failover h = absurd h
IsMeta-IsKubernetes redis_failover_list h = absurd h

-- The outcome is the client of the reply with no error, or no client and the error of the reply.
abbrev pub IsPassedOn : {R : Type 0} → Reply R → Outcome (Option R × Option GoError) → Type 0
IsPassedOn reply o =
    ((reply.error ≡ none) × (o ≡ returned (some reply.value, none)))
    ⊎ ((err : GoError) × (reply.error ≡ some err) × (o ≡ returned (none, some err)))

module _ {B Sch C R : Type 0} (lib : SchemeLibrary B Sch C R) (docs : Documented lib) where
  scheme_builder-IsServed :
      (t : GoType) → docs.IsRegistered (scheme_builder lib) t ↔ (IsServed t ⊎ IsMeta t)
  unfolding scheme_builder
  scheme_builder-IsServed t =
      let operates =
        docs.register (with_list redisoperates)
          (lib.register (with_list redis_clones)
            (lib.register (with_list redis_backups) (lib.new_builder group_version)))
          t in
      let clones =
        docs.register (with_list redis_clones)
          (lib.register (with_list redis_backups) (lib.new_builder group_version)) t in
      let backups = docs.register (with_list redis_backups) (lib.new_builder group_version) t in
      (
        λ h. elim (operates.0 h) [
          | inl m ↦ inl (IsInit-IsServed t (inl m))
          | inr (inr meta) ↦ inr meta
          | inr (inl h1) ↦ elim (clones.0 h1) [
            | inl m ↦ inl (IsInit-IsServed t (inr (inl m)))
            | inr (inr meta) ↦ inr meta
            | inr (inl h2) ↦ elim (backups.0 h2) [
              | inl m ↦ inl (IsInit-IsServed t (inr (inr m)))
              | inr (inr meta) ↦ inr meta
              | inr (inl h3) ↦ absurd (docs.new_builder group_version t h3)
            ]
          ]
        ],
        λ h. elim h [
          | inr meta ↦ operates.1 (inr (inr meta))
          | inl served ↦ elim (IsServed-IsInit t served) [
            | inl m ↦ operates.1 (inl m)
            | inr (inl m) ↦ operates.1 (inr (inl (clones.1 (inl m))))
            | inr (inr m) ↦ operates.1 (inr (inl (clones.1 (inr (inl (backups.1 (inl m)))))))
          ]
        ],
      )

  init-parts :
      (scheme : Sch)
      → init lib ≡ returned scheme
      → (t : GoType)
      → docs.Knows scheme t ↔ (
          docs.IsRegistered (scheme_builder lib) t ⊎ (IsKubernetes t ⊎ docs.Knows lib.new_scheme t))
  unfolding init
  init-parts scheme e t =
      let (first, ok, rest) = and_then-returned (must (lib.client_go lib.new_scheme)) _ scheme e in
      let (fine1, same1) = must-returned _ first ok in
      let (fine2, same2) = must-returned _ scheme rest in
      let added = docs.add_to_scheme (scheme_builder lib) first t fine2 in
      let kubernetes =
        subst (λ s. docs.Knows s t ↔ (IsKubernetes t ⊎ docs.Knows lib.new_scheme t)) same1
          (docs.client_go lib.new_scheme t fine1) in
      subst
        (λ s. docs.Knows s t ↔ (
          docs.IsRegistered (scheme_builder lib) t
          ⊎ (IsKubernetes t ⊎ docs.Knows lib.new_scheme t)))
        same2
        (
          λ h. elim (added.0 h) [ inl r ↦ inl r | inr k ↦ inr (kubernetes.0 k) ],
          λ h. elim h [ inl r ↦ added.1 (inl r) | inr k ↦ added.1 (inr (kubernetes.1 k)) ],
        )

  init-Knows_iff :
      (scheme : Sch)
      → init lib ≡ returned scheme
      → (t : GoType) → docs.Knows scheme t ↔ (IsKubernetes t ⊎ IsServed t)
  init-Knows_iff scheme e t =
      let parts = init-parts scheme e t in
      let served = scheme_builder-IsServed t in
      (
        λ h. elim (parts.0 h) [
          | inl r ↦ elim (served.0 r) [
            | inl own ↦ inr own
            | inr meta ↦ inl (IsMeta-IsKubernetes t meta)
          ]
          | inr k ↦ elim k [ inl k8s ↦ inl k8s | inr fresh ↦ absurd (docs.new_scheme t fresh) ]
        ],
        λ h. elim h [
          | inl k8s ↦ parts.1 (inr (inl k8s))
          | inr s ↦ parts.1 (inl (served.1 (inl s)))
        ],
      )

  -- If the initialisation of the process does not panic, its scheme knows a type exactly if it is
  -- a type of client-go, or a struct or a list of RedisBackup, RedisClone or Redisoperate; and it
  -- knows the struct of every kind that a controller may be told to watch.
  pub init-Knows :
      (scheme : Sch)
      → init lib ≡ returned scheme
      → ((t : GoType) → docs.Knows scheme t ↔ (IsKubernetes t ⊎ IsServed t))
        × ((kind : ObjectKind) → docs.Knows scheme (object kind))
  init-Knows scheme e = (
    init-Knows_iff scheme e,
    λ kind.
        (init-Knows_iff scheme e (object kind)).1
          (elim (IsOwn-cases kind) [ inl own ↦ inr own | inr isnt ↦ inl isnt ]),
  )

  -- NewClient panics where the types cannot be added to a scheme. Otherwise it asks for a client
  -- with the connection of the given configuration, the group `operator.bobfintech.com` in version
  -- `v1alpha1`, the path `/apis`, the content type `application/json`, the default user agent, and
  -- a serializer for the structs and the lists of RedisBackup, RedisClone and Redisoperate, for the
  -- types of meta/v1 that every group version has, and for no other type; and it returns the client
  -- that it is given, or no client and the error.
  pub new_client-Knows :
      (cfg : RestConfig Sch C)
      → ((new_client lib cfg ≡ panicked)
          × ((lib.add_to_scheme (scheme_builder lib) lib.new_scheme).0 ≢ none))
        ⊎ ((scheme : Sch) × IsPassedOn
              (lib.rest_client_for (record {
                connection = cfg.connection;
                group_version =
                    some (record { group = "operator.bobfintech.com"; version = "v1alpha1" });
                api_path = "/apis";
                content_type = "application/json";
                user_agent = lib.default_user_agent;
                codecs = some scheme;
              }))
              (new_client lib cfg)
            × ((t : GoType) → docs.Knows scheme t ↔ (IsServed t ⊎ IsMeta t)))
  unfolding new_client
  new_client-Knows cfg =
      elim (Option-cases ((lib.add_to_scheme (scheme_builder lib) lib.new_scheme).0)) [
        | inl fine ↦
            let s = (lib.add_to_scheme (scheme_builder lib) lib.new_scheme).1 in
            let added = docs.add_to_scheme (scheme_builder lib) lib.new_scheme in
            inr (
              s,
              passes_on s (ap (λ o. and_then o answer) (must-fine _ fine)),
              λ t. (
                λ h. elim ((added t fine).0 h) [
                  | inl r ↦ (scheme_builder-IsServed t).0 r
                  | inr fresh ↦ absurd (docs.new_scheme t fresh)
                ],
                λ served. (added t fine).1 (inl ((scheme_builder-IsServed t).1 served)),
              ),
            )
        | inr (err, fails) ↦ inl (
          ap (λ o. and_then o answer) (must-panics _ err fails),
          λ fine. none-ne-some err (sym fine ∙ fails),
        )
      ]
    where
      answer : Sch → Outcome (Option R × Option GoError)
      answer scheme =
          returned (client_or_error lib (lib.rest_client_for (typed_config lib scheme cfg)))

      passes_on :
          (scheme : Sch)
          → new_client lib cfg ≡ answer scheme
          → IsPassedOn (lib.rest_client_for (typed_config lib scheme cfg)) (new_client lib cfg)
      passes_on scheme e =
          elim (Option-cases ((lib.rest_client_for (typed_config lib scheme cfg)).error)) [
            | inl fine ↦ inl (fine, e ∙ rw fine refl)
            | inr (err, fails) ↦ inr (err, fails, e ∙ rw fails refl)
          ]
