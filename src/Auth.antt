-- ===== src/Auth.antt =====
-- internal/auth: identities, their credentials and their permissions.
pub mod Password
pub mod Local
pub mod Policy
pub mod Credentials
mod Tests
