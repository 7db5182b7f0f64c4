-- ===== src/Tests.antt =====
-- Concrete runs of the parts.
pub mod Toy
pub mod Stored
pub mod People
pub mod Endpoints
pub mod Limits
pub mod Orgs
pub mod Consents
pub mod Logins
pub mod Starts
pub mod Logouts
pub mod Admins
pub mod Secrets
