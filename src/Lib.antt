-- ===== src/Lib.antt =====
-- A model of the redis-backup-operator, a Kubernetes operator that backs up redis clusters, follows
-- their clones and fails them over, with theorems about what it sends and answers.
--
-- Parts. Three controllers reconcile one resource each: RedisBackup
-- (controllers/redisbackup_controller.go), RedisClone (controllers/redisclone_controller.go) and
-- Redisoperate (controllers/redisoperate_controller.go). The backup controller builds a Job or a
-- CronJob (utils/cronjob.go) on the claim of the running redis master, and reads the record of the
-- last backup from redis (utils/redis/client.go). Two informers (main.go) call CycleSync and
-- CloneInfoSync on each resync. utils/redis/redisclient.go is a client of redis and sentinel servers.
--
-- State. The API server, the redis servers and the clock are operations over a state `S` of which
-- nothing is known (Runtime.antt, Runtime/Services.antt): each answers as it likes, so that the
-- theorems hold under any interleaving with other clients; only those of Backup/Convergence,
-- Backup/OneShot, Clone/Tracking, Redis/Server and Scheme assume that third-party code does what is
-- documented. `World` adds a log of the requests that change something, the newest first. A panic and
-- the exit of the process are outcomes. Log output, contexts, timeouts and the closing of connections
-- are not modelled, except the error of `Close` that RedisConn reads.
--
-- Files.
--   Base.antt and below: Boolean tests, lists, integers, and texts with Split, Join, Contains and maps.
--   Types.antt and below: the resources of api/v1alpha1 and the Kubernetes data types.
--   Runtime.antt: the monad and the interfaces of third-party code.
--   Cronjob.antt: utils/cronjob.go (MakeCronJob is make_cron_job, ExistCronJob is exist_cron_job) and
--   utils/constants/constants.go.
--   Redis.antt, Redis/Regex.antt, Redis/Client.antt: utils/redis, a function per function, named as it
--   is in snake case; an expression `literal([class]+)` is find_submatch.
--   Redis/Server.antt and below: the documented answers of a redis server and of a sentinel, and what
--   the client reads of servers that it has set up.
--   Backup.antt, Backup/Steps.antt, Backup/Reconcile.antt, Backup/CycleSync.antt: Reconcile,
--   getCronJobVersion and CycleSync of RedisBackup.
--   Backup/Convergence.antt and below: the abstract phase of a backup with a schedule, a cluster whose
--   servers do what they are asked (Store.antt), and how passes, periodic checks and what others do to
--   the master move the phase.
--   Backup/OneShot.antt and below: the same for a backup with no schedule and its Job.
--   DeepCopy.antt and below: api/v1alpha1/zz_generated.deepcopy.go over a memory of blocks, for the
--   served types and for the RedisFailover types of api/v1alpha1/types.go. The DeepCopyInto of
--   third-party structs is a parameter, with what a deep copy owes as laws (Lawful.antt).
--   Clone.antt: Reconcile and CloneInfoSync of RedisClone. Clone/Tracking.antt and below: the abstract
--   view of a clone, a cluster whose servers do what they are asked, and how passes, refreshes and
--   what others do move the view. Operate.antt: Reconcile of Redisoperate.
--   Setup.antt: SetupWithManager of the three controllers.
--   Scheme.antt and below: api/v1alpha1/groupversion_info.go, the init functions of api/v1alpha1
--   and of main.go, and which Go types are known after them.
--   Main.antt: the calls of main and the handlers of the informers.
--   Tests.antt and below: a small cluster, runs on it, and instances of the theorems.
--
-- Bounds. All loops are structural recursion on a list or a text; no fuel is used. strconv.Atoi is
-- out of range from 2^63 on, and the conversion to int32 wraps at 2^32.
--
-- Not modelled: the parse of the flags, vendored code, the Python scripts, and the manifests.
pub mod Base
pub mod Types
pub mod Runtime
pub mod Cronjob
pub mod Redis
pub mod Backup
pub mod Clone
pub mod Operate
pub mod Setup
pub mod Scheme
pub mod DeepCopy
pub mod Main
pub mod Tests
