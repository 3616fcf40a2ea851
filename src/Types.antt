-- ===== src/Types.antt =====
-- The resources that the operator serves (api/v1alpha1) and the Kubernetes objects that it reads
-- and writes. The latter are third-party data types, with the fields that the program uses.
pub mod Backup
pub mod Clone
pub mod Operate
pub mod Kubernetes
