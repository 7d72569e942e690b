-- ===== src/Examples.antt =====
-- The theorems at concrete inputs, and tests of the definitions.
pub mod Headers
pub mod Deliveries
pub mod Calls
pub mod Disk
pub mod Administration
pub mod Settings
pub mod Requests
pub mod Instances
pub mod Fixtures
pub mod Deployments
