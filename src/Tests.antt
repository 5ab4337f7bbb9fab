-- ===== src/Tests.antt =====
-- Concrete files, states and requests at which the theorems of the other modules are applied.
pub mod Files
pub mod Starts
pub mod Submissions
pub mod Leaves
pub mod Anchors
pub mod Discoveries
pub mod Receipting
pub mod Requests
pub mod Sendings
pub mod Lifetimes
pub mod Merging
pub mod Proofs
