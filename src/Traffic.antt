-- ===== src/Traffic.antt =====
-- browser-trace/traffic.py: per-tab and per-host byte accounting.
pub mod State
pub mod Hosts
pub mod Requests
pub mod Tabs
mod Buckets
pub mod Invariant
pub mod Ranking
pub mod Reporting
pub mod Billing
pub mod Keyed
pub mod Closing
mod Tests
