-- ===== src/Alloc.antt =====
-- internal/fs/allocator_v3.go: the three-level bitmap allocator.
pub mod Geometry
pub mod Store
pub mod Mark
pub mod Search
pub mod Summary
pub mod Api
pub mod Spec
pub mod Calls
pub mod Refines
mod Tests
pub mod Examples
mod CallExamples
