-- ===== src/Alloc/Summary.antt =====
-- The two summary levels, as updateL1ForL0Slot and updateL2ForL1Slot compute them.
pub mod Level1
pub mod Level2
pub mod Refresh
pub mod Fresh
pub mod Exact
pub mod Marked
