-- ===== src/Operate/Failover.antt =====
-- The failover on demand: what is sent, when the reconciler panics, and when it is idle.
use redis_backup_operator.Base.{
  ◌≡◌, refl, ◌≢◌, ◌⊎◌, inl, inr, sym, ap, ◌∙◌, true, false, none, some, List, [], ◌∷◌, pos, int_eq,
  get_elem?, arith, Bool-cases, Option-cases,
}
use redis_backup_operator.Types.Kubernetes.{NamespacedName, Pod}
use redis_backup_operator.Types.Operate.{Redisoperate}
use redis_backup_operator.Runtime.{
  World, Reply, returned, panicked, done, patches, commands, Environment, Event,
}
use redis_backup_operator.Redis.{options_of}
use redis_backup_operator.Backup.{pod_labels}
use redis_backup_operator.Operate.{cleared, fail_over, reconcile}

-- The command that fails over the cluster of a sentinel
abbrev pub fails_over : Pod → Event
fails_over sentinel =
    commands (options_of sentinel.pod_ip "26379" "") ("SENTINEL" ∷ "failover" ∷ "mymaster" ∷ [])

module _ {S : Type 0} (env : Environment S) where
  fail_over-cases :
      (operate : Redisoperate) (sentinels : List Pod) (w : World S)
      → ((sentinels ≡ []) × (fail_over env operate sentinels w ≡ (panicked, w)))
        ⊎ ((first : Pod) × (get_elem? sentinels 0 ≡ some first)
            × ((fail_over env operate sentinels w).0 ≢ panicked)
            × ((fail_over env operate sentinels w).1.log
                ≡ patches (cleared operate) operate ∷ fails_over first ∷ w.log))
  unfolding fail_over
  fail_over-cases operate [] w = inl (refl, refl)
  fail_over-cases operate (first ∷ rest) w = inr (first, refl, ground arith, ground arith)

  module _ (req : NamespacedName) (w : World S) where
    abbrev pub got : Reply Redisoperate × S
    got = env.api.get_redisoperate req w.cluster

    abbrev pub operate : Redisoperate
    operate = (got.0).value

    abbrev pub sentinels : Reply (List Pod) × S
    sentinels = env.api.list_pods (pod_labels "sentinel" operate.spec.cluster_name) got.1

    after_reads : World S
    after_reads = record { cluster = sentinels.1; log = w.log }

    -- What a pass is, over a resource that was read: the failover, or nothing.
    reconcile_lem :
        (got.0).error ≡ none
        → int_eq operate.spec.failover_flag (pos 1) ≡ true
        → reconcile env req w ≡ fail_over env operate (sentinels.0).value after_reads
    unfolding reconcile after_reads
    reconcile_lem read set = rw (reconcile, read, set)

    -- With the resource read, its flag set, and a sentinel listed, a pass sends the failover of
    -- the first sentinel and then the patch of the resource to the same one with the flag 0,
    -- whatever the sentinel answers; it does not panic.
    pub reconcile-failover :
        (first : Pod)
        → (got.0).error ≡ none
        → int_eq operate.spec.failover_flag (pos 1) ≡ true
        → get_elem? (sentinels.0).value 0 ≡ some first
        → ((reconcile env req w).1.log
            ≡ patches
                (record operate { spec = record (operate.spec) { failover_flag = pos 0 } })
                operate
              ∷ fails_over first
              ∷ w.log)
          × ((reconcile env req w).0 ≢ panicked)
    unfolding after_reads
    reconcile-failover first read set listed =
        rw (reconcile_lem read set)
          (elim (fail_over-cases operate (sentinels.0).value after_reads) [
            | inl (empty, _) ↦ absurd (none-listed (sentinels.0).value first empty listed)
            | inr (p, here, fine, sent) ↦ (
              sent
                  ∙ ap (λ q. patches (cleared operate) operate ∷ fails_over q ∷ w.log)
                      (some_eq (sym here ∙ listed)),
              fine,
            )
          ])
      where
        none-listed : (l : List Pod) (p : Pod) → l ≡ [] → get_elem? l 0 ≡ some p → ⊥
        none-listed [] p e h = cc
        none-listed (q ∷ l) p e h = cc

        some_eq : {a b : Pod} → some a ≡ some b → a ≡ b
        some_eq e = cc

    -- With the resource read, its flag set, and no sentinel listed, as when the list fails, the
    -- pass panics and has sent nothing.
    pub reconcile-no_sentinel :
        (got.0).error ≡ none
        → int_eq operate.spec.failover_flag (pos 1) ≡ true
        → (sentinels.0).value ≡ []
        → ((reconcile env req w).0 ≡ panicked) × ((reconcile env req w).1.log ≡ w.log)
    unfolding after_reads fail_over
    reconcile-no_sentinel read set empty = rw (reconcile_lem read set, empty) (refl, refl)

    -- With any other flag in what the read filled in, nothing is sent and the pass succeeds, also
    -- where the resource could not be read.
    pub reconcile-idle :
        int_eq operate.spec.failover_flag (pos 1) ≡ false
        → ((reconcile env req w).0 ≡ returned done) × ((reconcile env req w).1.log ≡ w.log)
    unfolding reconcile
    reconcile-idle unset = elim (Option-cases (got.0).error) [
      | inl read ↦ rw (reconcile, read, unset) (refl, refl)
      | inr (err, fails) ↦ elim (Bool-cases err.is_not_found) [
        | inl missing ↦ rw (reconcile, fails, missing) (refl, refl)
        | inr other ↦ rw (reconcile, fails, other, unset) (refl, refl)
      ]
    ]

  -- A failover happens once: after a pass that read the set flag, with a sentinel listed, a
  -- second pass that reads the resource as the patch left it adds nothing to the failover and the
  -- patch that the first one sent.
  reconcile-once :
      (req : NamespacedName) (first : Pod) (w w' : World S)
      → ((got req w).0).error ≡ none
      → int_eq (operate req w).spec.failover_flag (pos 1) ≡ true
      → get_elem? ((sentinels req w).0).value 0 ≡ some first
      → w'.log ≡ (reconcile env req w).1.log
      → operate req w' ≡ cleared (operate req w)
      → (reconcile env req w').1.log
        ≡ patches (cleared (operate req w)) (operate req w) ∷ fails_over first ∷ w.log
  reconcile-once req first w w' read set listed same reread =
      let unset = ap (λ (o : Redisoperate). int_eq o.spec.failover_flag (pos 1)) reread in
      (reconcile-idle req w' unset).1 ∙ same ∙ (reconcile-failover req w first read set listed).0
