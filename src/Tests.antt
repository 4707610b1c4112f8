-- ===== src/Tests.antt =====
-- Concrete runs of the development: each theorem at an input that exercises the code.
pub mod Samples
pub mod Sync
pub mod Jobs
pub mod Snmp
pub mod Descriptions
pub mod Apply
pub mod Tickets
pub mod Privet
pub mod Supplies
pub mod Attributes
pub mod Ppds
pub mod Logs
