-- ===== src/DeepCopy/Separation.antt =====
-- A deep copy shares no memory with the original.
use redis_backup_operator.Base.{ℕ, ◌≤◌, ◌<◌, ◌≡◌, ◌≢◌, arith}
use redis_backup_operator.DeepCopy.Memory.{Memory, Ref, write}
use redis_backup_operator.DeepCopy.Lawful.{Agrees, Deep}
use redis_backup_operator.DeepCopy.Blocks.{ref}
use redis_backup_operator.DeepCopy.Types.{Kind, RedisBackupList, RedisoperateStruct}
use redis_backup_operator.DeepCopy.FailoverTypes.{RedisFailoverList}
use redis_backup_operator.DeepCopy.Cells.{Cell}
use redis_backup_operator.DeepCopy.Layouts.{redis_backup_lists_layout, redisoperates_layout}
use redis_backup_operator.DeepCopy.FailoverLayouts.{redis_failover_lists_layout}
use redis_backup_operator.DeepCopy.Served.{deep_copy_redis_backup_list, deep_copy_redisoperate}
use redis_backup_operator.DeepCopy.Failover.{deep_copy_redis_failover_list}
use redis_backup_operator.DeepCopy.ServedLaws.{redis_backup_list_deep, redisoperate_deep}
use redis_backup_operator.DeepCopy.FailoverLaws.{redis_failover_list_deep}

-- `r` is the result of copying `a`, which stands for `v` in `h`: original and copy stand for `v`,
-- and none of them notices a write to the memory of the other.
pub record IsSeparate {C A : Type 0} (d : Deep C A) (a : A) (v : d.View) (h : Memory C)
    (r : A × Memory C) : Type 0 where
  pub original : d.At 0 h.next r.1 a v
  pub copied : d.At h.next r.1.next r.1 r.0 v
  pub original_stays : (q : ℕ) (c : C) → h.next ≤ q → d.At 0 h.next (write q c r.1) a v
  pub copy_stays : (q : ℕ) (c : C) → q < h.next → d.At h.next r.1.next (write q c r.1) r.0 v

module _ {C A : Type 0} (d : Deep C A) where
  write-Agrees :
      (q : ℕ) (c : C) (h : Memory C) (lo hi : ℕ)
      → ((p : ℕ) → lo ≤ p → p < hi → p ≢ q)
      → Agrees lo hi h (write q c h)
  write-Agrees q c h lo hi outside p lower upper = other (outside p lower upper)
    where
      other : p ≢ q → (write q c h).cell p ≡ h.cell p
      other differs = ground arith

  copy-IsSeparate :
      (a : A) (v : d.View) (h : Memory C) → d.At 0 h.next h a v → IsSeparate d a v h (d.copy a h)
  copy-IsSeparate a v h at =
      let (le, same) = d.grows a h in
      let h' = (d.copy a h).1 in
      let there = d.keeps 0 h.next h h' a v same at in
      let copied = d.copies 0 h.next h a v (omega arith) at in
      record {
        original = there;
        copied = copied;
        original_stays = λ q c above.
            d.keeps 0 h.next h' _ a v (write-Agrees q c h' 0 h.next (λ p lower upper. omega arith))
              there;
        copy_stays = λ q c below.
            d.keeps h.next h'.next h' _ _ v
              (write-Agrees q c h' h.next h'.next (λ p lower upper. omega arith)) copied;
      }

module _ {X : Kind → Type 0} {F : Type 0} (lib : (k : Kind) → Deep (Cell X F) (X k)) where
  abbrev pub backup_lists : Deep (Cell X F) (Ref (RedisBackupList X))
  backup_lists = ref (redis_backup_list_deep lib) redis_backup_lists_layout

  abbrev pub operates : Deep (Cell X F) (Ref (RedisoperateStruct X))
  operates = ref (redisoperate_deep lib) redisoperates_layout

  abbrev pub failover_lists : Deep (Cell X F) (Ref (RedisFailoverList X))
  failover_lists = ref (redis_failover_list_deep lib) redis_failover_lists_layout

  -- The deep copy of a list of RedisBackups, whose references lead to blocks of their types, stands
  -- for the same list as the original, nil references included, and neither notices a write to the
  -- memory of the other, if the third-party structs in it are copied so.
  pub deep_copy_redis_backup_list-IsSeparate :
      (p : Ref (RedisBackupList X)) (v : backup_lists.View) (h : Memory (Cell X F))
      → backup_lists.At 0 h.next h p v
      → IsSeparate backup_lists p v h (deep_copy_redis_backup_list lib p h)
  unfolding deep_copy_redis_backup_list
  deep_copy_redis_backup_list-IsSeparate p v h at = copy-IsSeparate backup_lists p v h at

  -- The deep copy of a Redisoperate, which Reconcile keeps as the original of its patch, stands for
  -- the same resource where the references lead to blocks of their types, and neither notices a
  -- write to the memory of the other, if the third-party metadata is copied so.
  deep_copy_redisoperate-IsSeparate :
      (p : Ref (RedisoperateStruct X)) (v : operates.View) (h : Memory (Cell X F))
      → operates.At 0 h.next h p v
      → IsSeparate operates p v h (deep_copy_redisoperate lib p h)
  unfolding deep_copy_redisoperate
  deep_copy_redisoperate-IsSeparate p v h at = copy-IsSeparate operates p v h at

  -- The deep copy of a list of RedisFailovers, whose references lead to blocks of their types,
  -- stands for the same list as the original, with all settings, nil references included, and neither notices a write to the memory of the other, if
  -- the third-party structs in it are copied so.
  pub deep_copy_redis_failover_list-IsSeparate :
      (p : Ref (RedisFailoverList X)) (v : failover_lists.View) (h : Memory (Cell X F))
      → failover_lists.At 0 h.next h p v
      → IsSeparate failover_lists p v h (deep_copy_redis_failover_list lib p h)
  unfolding deep_copy_redis_failover_list
  deep_copy_redis_failover_list-IsSeparate p v h at = copy-IsSeparate failover_lists p v h at
