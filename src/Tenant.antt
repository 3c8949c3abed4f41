-- ===== src/Tenant.antt =====
-- The tenant's side of a request: the environment that the services share, and the roles of users.
mod Env
mod Roles
mod Example
unfoldable pub use Env.*
unfoldable pub use Roles.*
pub use Example.*
