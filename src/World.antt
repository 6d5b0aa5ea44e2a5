-- ===== src/World.antt =====
-- What the program's parts share: errors, results, the models of models/models.go, and the calls to
-- the services outside (PostgreSQL, Valkey, Google Calendar, Telegram), with the trace of them.
pub mod Models
pub mod Calls
pub mod Prog
pub mod Api
pub mod Emits
pub mod Inversion
