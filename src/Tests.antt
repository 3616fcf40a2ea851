-- ===== src/Tests.antt =====
-- Runs of the operator on a small cluster, and instances of the theorems.
mod Cluster
mod Backup
mod Clone
mod Cronjob
mod Operate
mod Redis
mod Servers
mod Tracking
mod OneShot
mod Main
mod History
mod Convergence
mod DeepCopy
mod Setup
mod Scheme
