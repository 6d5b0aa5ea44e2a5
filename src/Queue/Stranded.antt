-- ===== src/Queue/Stranded.antt =====
-- StartConsumers of internal/queue/amqp.go, and which consumer takes what is published.
use contest_sync.Common.{
  ℕ, ◌≡◌, ◌≢◌, false, none, List, [], ◌∷◌, Bytes, is_empty, if◌then◌else◌, arith, All,
}
use contest_sync.Queue.State.{
  Queue, SetUp, set_up, new_queue, connect_amqp, establish, or_in_memory, is_down,
}
use contest_sync.Queue.Publish.{Surroundings, publish_sync_task, select_send, in_memory}

-- The goroutines that StartConsumers starts.
pub data Reader : Type 0 where
  consume_extraction_in_memory consume_sync_in_memory : Reader
  run_self_healing_extraction_consumer run_self_healing_sync_consumer : Reader

unfoldable pub start_consumers : Queue → List Reader
start_consumers q =
    if q.amqp_configured
    then run_self_healing_extraction_consumer ∷ run_self_healing_sync_consumer ∷ []
    else consume_extraction_in_memory ∷ consume_sync_in_memory ∷ []

-- the channels of the process that a consumer receives from, and not the broker's
abbrev pub ReadsChannels : Reader → Type 0
ReadsChannels consume_extraction_in_memory = Unit
ReadsChannels consume_sync_in_memory = Unit
ReadsChannels _ = ⊥

-- If a broker is configured and the connection to it fails when the queue is made, PublishSyncTask
-- accepts a task without an error and keeps it in the channel of the process, while no consumer that
-- StartConsumers starts receives from that channel.
pub publish_sync_task_unread :
    (url : Bytes) (s : SetUp) (o : Surroundings) (id : ℕ)
    → is_empty url ≡ false
    → s ≢ set_up
    → o.done ≡ false
    → let q = new_queue url s in
      let p = publish_sync_task o id q in
      (p.error ≡ none)
      × (p.message ≡ none)
      × (p.queue.sync_ch ≡ id ∷ [])
      × All (λ r. ReadsChannels r → ⊥) (start_consumers p.queue)
unfolding new_queue connect_amqp establish or_in_memory is_down publish_sync_task select_send
    in_memory start_consumers
publish_sync_task_unread url s o id h1 h2 h3 = ground arith
