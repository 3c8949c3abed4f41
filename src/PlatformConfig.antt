-- ===== src/PlatformConfig.antt =====
-- The tenant's configuration: how it is fetched and cached, feature flags, enforcement.
pub mod Config
mod Foundation
pub mod Snapshot
pub mod Flags
pub mod Enforcement
pub mod Runtime
mod Tests
