-- ===== src/Telegram.antt =====
-- internal/observability/telegram.go: the notifications.
pub mod Utf8
pub mod Escape
pub mod Notices
pub mod Split
pub mod Client
pub mod Manager
