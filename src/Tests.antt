-- ===== src/Tests.antt =====
-- Runs at concrete data, and the theorems there.
pub mod Memory
pub mod Users
pub mod Statuses
pub mod Conditions
pub mod Arguments
pub mod Objects
pub mod Conversions
pub mod Fleet
pub mod Instances
pub mod Workloads
pub mod Sources
