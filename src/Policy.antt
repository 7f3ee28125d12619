-- ===== src/Policy.antt =====
-- policy.go and policy/baseline/policy.go, in the modules below.
pub mod Requests
pub mod Scope
pub mod Evaluate
pub mod Baseline
pub mod Equal
pub mod FailClosed
pub mod Authorized
mod Examples
