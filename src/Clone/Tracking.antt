-- ===== src/Clone/Tracking.antt =====
-- The abstract view of a RedisClone: what the destination says of its replication, the time, and the
-- stored conditions. A pass of Reconcile and a run of CloneInfoSync are steps on it, and so is what
-- others do to the destination and to the clock.
pub mod Soundness
pub mod Store
pub mod Shows
pub mod Writes
pub mod Runs
use mathlib.Core.Bool.{false≢true}
use mathlib.Core.Path.{subst}
use redis_backup_operator.Base.{
  String, ◌==◌, ◌≡◌, refl, ◌≢◌, ◌⊎◌, inl, inr, Option, none, some, List, [], ◌∷◌, if◌then◌else◌,
  Bool-cases, All, ap, sym, ◌∙◌, ◌++◌, ==-eq-true,
}
use redis_backup_operator.Base.Text.{◌+++◌, get}
use redis_backup_operator.Types.Clone.{RedisClone, RedisCloneSpec, CloneCondition}
use redis_backup_operator.Clone.{with_replication, with_link_down, replication_info}

-- The replication section of the destination's first pod; `none` where no pod is listed or it
-- answers nothing.
abbrev pub Seen : Type 0
Seen = Option String

pub record View : Type 0 where
  pub seen : Seen
  pub time : String
  pub conditions : CloneCondition

pub data Step : Type 0 where
  starts refreshes : Step
  -- the destination says, and the clock shows
  passes_on : Seen → String → Step

-- The conditions that a pass writes
abbrev pub started : RedisCloneSpec → String → Seen → CloneCondition
started spec time seen =
    let fresh : CloneCondition = record {
      source_cluster = spec.source_cluster;
      dest_cluster = spec.dest_cluster;
      source_ip_port = spec.source_ip +++ ":" +++ spec.source_port;
      cluster_type = spec.cluster_type;
      start_time = time;
      off_set = "";
      clone_lag = "";
      clone_status = "down";
      replicas = spec.replicas;
    } in
    elim seen [ none ↦ fresh | some section ↦ with_replication fresh section ]

-- The conditions with the fields of the specification, where no start is recorded
abbrev pub completed : RedisCloneSpec → String → CloneCondition → CloneCondition
completed spec time c =
    if c.start_time == ""
    then record c {
      source_cluster = spec.source_cluster;
      dest_cluster = spec.dest_cluster;
      replicas = spec.replicas;
      cluster_type = spec.cluster_type;
      source_ip_port = spec.source_ip +++ ":" +++ spec.source_port;
      start_time = time;
    }
    else c

-- The conditions that a refresh writes
abbrev pub renewed : Seen → CloneCondition → CloneCondition
renewed none c = record c { clone_lag = "-1"; clone_status = "down" }
renewed (some section) c = with_replication c section

abbrev pub step_spec : RedisCloneSpec → Step → View → View
step_spec spec starts v = record v { conditions = started spec v.time v.seen }
step_spec spec refreshes v = record v {
  conditions = renewed v.seen (completed spec v.time v.conditions);
}
step_spec spec (passes_on seen time) v = record v { seen = seen; time = time }

abbrev pub follow_spec : RedisCloneSpec → List Step → View → View
follow_spec spec [] v = v
follow_spec spec (s ∷ ss) v = follow_spec spec ss (step_spec spec s v)

-- The link status that is read from what the destination says
abbrev pub status_of : Seen → String
status_of none = "down"
status_of (some section) = get "master_link_status" (replication_info section)

-- The conditions are of this specification.
abbrev pub IsOfSpec : RedisCloneSpec → CloneCondition → Type 0
IsOfSpec spec c =
    (c.source_cluster ≡ spec.source_cluster)
    × (c.dest_cluster ≡ spec.dest_cluster)
    × (c.source_ip_port ≡ spec.source_ip +++ ":" +++ spec.source_port)
    × (c.cluster_type ≡ spec.cluster_type)
    × (c.replicas ≡ spec.replicas)

-- No start is recorded, or the conditions are of the specification.
abbrev pub IsSound : RedisCloneSpec → View → Type 0
IsSound spec v = (v.time ≢ "") × ((v.conditions.start_time ≡ "") ⊎ IsOfSpec spec v.conditions)

-- The conditions are of the specification, a start is recorded, and the link status is the given
-- one.
abbrev pub IsLinked : RedisCloneSpec → String → CloneCondition → Type 0
IsLinked spec status c = IsOfSpec spec c × (c.start_time ≢ "") × (c.clone_status ≡ status)

-- The link status is the one that is read from what the destination says.
abbrev pub Tracks : RedisCloneSpec → View → Type 0
Tracks spec v = IsLinked spec (status_of v.seen) v.conditions

-- The clock shows a time.
abbrev pub IsTimely : Step → Type 0
IsTimely starts = Unit
IsTimely refreshes = Unit
IsTimely (passes_on seen time) = time ≢ ""

-- And the destination says what it said.
abbrev pub IsCalm : Seen → Step → Type 0
IsCalm seen starts = Unit
IsCalm seen refreshes = Unit
IsCalm seen (passes_on now time) = (now ≡ seen) × (time ≢ "")

-- A pass or a refresh
abbrev pub IsWrite : Step → Type 0
IsWrite starts = Unit
IsWrite refreshes = Unit
IsWrite (passes_on seen time) = ⊥
