-- ===== src/Queue.antt =====
-- internal/queue/amqp.go: the task queue, on an AMQP broker or in memory.
pub mod State
pub mod Connect
pub mod Consumer
pub mod Publish
pub mod Channel
pub mod Delivery
pub mod Retries
pub mod Backoff
pub mod Extraction
pub mod Stranded
