-- ===== src/Web.antt =====
-- internal/api/handlers.go and admin_handlers.go: the handlers of the HTTP routes; and the sessions of
-- internal/api/middleware.go.
pub mod Account
pub mod Admin
pub mod Calls
pub mod Feed
pub mod Login
pub mod ManualSync
pub mod Me
pub mod Platforms
pub mod Preferences
pub mod Sessions
pub mod Static
pub mod Validation
