-- ===== src/Tests.antt =====
-- The theorems at concrete inputs.
pub mod Informer
pub mod Access
pub mod Changes
pub mod Hosts
pub mod Leases
pub mod Routes
pub mod Runs
pub mod Schedules
pub mod Settings
pub mod Users
