-- ===== src/Routing.antt =====
-- routing.go and router/deterministic/router.go, in the modules below.
pub mod Request
pub mod Gates
pub mod Decision
pub mod Deterministic
pub mod Bounds
pub mod Scores
pub mod Valid
pub mod Exclusions
pub mod Loop
pub mod Selection
pub mod Best
pub mod Assessments
pub mod Counts
pub mod Accepted
mod Examples
