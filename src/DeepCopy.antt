-- ===== src/DeepCopy.antt =====
-- The deep copies of the API types, api/v1alpha1/zz_generated.deepcopy.go, in a memory with slices,
-- maps and pointers.
pub mod Memory
pub mod Lawful
pub mod Blocks
pub mod Types
pub mod FailoverTypes
pub mod Cells
pub mod Layouts
pub mod FailoverLayouts
pub mod Served
pub mod Failover
pub mod ServedLaws
pub mod PartLaws
pub mod FailoverLaws
pub mod Separation
