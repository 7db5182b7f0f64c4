-- ===== src/OAuth.antt =====
-- The OAuth helpers that need neither HTTP nor storage: apps/server/internal/oauth.
pub mod Scope
pub mod Redirect
pub mod Pkce
