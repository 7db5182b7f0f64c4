-- ===== src/Web.antt =====
-- The HTTP surface: apps/server/internal/web.
pub mod Views
pub mod Http
pub mod Current
pub mod Issue
pub mod Token
pub mod Csrf
pub mod Authorize
pub mod Account
pub mod Admin
pub mod AdminOrgs
pub mod Orgs
pub mod Logout
pub mod Notices
pub mod EndSession
pub mod Routes
