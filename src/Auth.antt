-- ===== src/Auth.antt =====
-- Permissions of users (web-server/src/common/auth and
-- web-server/src/control-plane/user-authority.service.ts).
pub mod Catalogue
pub mod Permissions
pub mod Authority
pub mod Guard
pub mod Freshness
pub mod Grants
pub mod Access
mod Tests
