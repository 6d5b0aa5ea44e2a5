-- ===== src/Examples.antt =====
-- Concrete inputs on which the theorems are applied, and runs of the definitions on them.
mod Fixtures
mod Synchronising
mod Queueing
mod Sending
mod Limiting
mod Serving
mod Running
mod Extracting
mod Consuming
