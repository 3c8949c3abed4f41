-- ===== src/Cbt.antt =====
-- Computer-based tests (web-server/src/cbt/cbt.service.ts). Numbers of a request are whole and not
-- negative; times are milliseconds, the duration of an exam is in minutes. Ids come from
-- `randomToken` and are arguments. The JSON columns hold their values. A flag or a tenant is as it
-- was at the start of a request when a method asks for it again.
pub mod Rows
pub mod Sittings
pub mod Service
pub mod Questions
pub mod Scores
pub mod Attempts
pub mod Finality
mod Tests
