-- ===== src/Queue/Channel.antt =====
-- The in-memory channel of user ids in internal/queue/amqp.go with its consumer, consumeSyncInMemory,
-- as a state machine, for the time before ctx is done.
use contest_sync.Common.{
  ℕ, zero, suc, ◌≤◌, ◌≡◌, Option, none, some, List, [], ◌∷◌, ◌++◌, ltb, if◌then◌else◌, length,
}
use contest_sync.Queue.Publish.{Surroundings, PublishError, select_send, sync_capacity}

-- `sem := make(chan struct{}, 10)`
abbrev pub sync_workers : ℕ
sync_workers = 10

-- The channel, the id that the loop has received while it waits for the semaphore, and the running
-- goroutines; then what has been accepted and started so far, oldest first.
pub record Consumer : Type 0 where
  pub channel : List ℕ
  pub received : Option ℕ
  pub running : List ℕ
  pub accepted : List ℕ
  pub started : List ℕ

abbrev pub idle_consumer : Consumer
idle_consumer = record { channel = []; received = none; running = []; accepted = []; started = [] }

-- PublishSyncTask in memory, the receive of the loop, its send to the semaphore and the start of the
-- goroutine behind it, and the end of the goroutine at a position.
pub data Move : Type 0 where
  publish : Surroundings → ℕ → Move
  receive : Move
  acquire : Move
  finish : ℕ → Move

abbrev without_index : ℕ → List ℕ → List ℕ
without_index n [] = []
without_index zero (x ∷ xs) = xs
without_index (suc n) (x ∷ xs) = x ∷ without_index n xs

abbrev sent : Consumer → ℕ → Option PublishError × List ℕ → Consumer
sent c id (none, ch) = record c { channel = ch; accepted = c.accepted ++ id ∷ [] }
sent c id (some e, ch) = record c { channel = ch }

abbrev receiving : Consumer → Option ℕ → List ℕ → Consumer
receiving c (some id) ch = c
receiving c none [] = c
receiving c none (id ∷ ch) = record c { received = some id; channel = ch }

abbrev started_with : Consumer → ℕ → Consumer
started_with c id = record c {
  received = none;
  running = id ∷ c.running;
  started = c.started ++ id ∷ [];
}

abbrev starting : Consumer → Option ℕ → Consumer
starting c none = c
starting c (some id) = if ltb (length c.running) sync_workers then started_with c id else c

-- A move that is not possible leaves the state: the goroutine waits.
unfoldable pub move : Move → Consumer → Consumer
move (publish o id) c = sent c id (select_send sync_capacity o id c.channel)
move receive c = receiving c c.received c.channel
move acquire c = starting c c.received
move (finish n) c = record c { running = without_index n c.running }

unfoldable pub moves : List Move → Consumer → Consumer
moves [] c = c
moves (m ∷ ms) c = moves ms (move m c)

-- the id that the loop holds
abbrev pub waiting : Option ℕ → List ℕ
waiting none = []
waiting (some id) = id ∷ []

-- Every accepted id is started, held or in the channel, in the order of acceptance; the channel and
-- the goroutines keep their limits.
pub record IsFair (c : Consumer) : Type 0 where
  pub order : c.accepted ≡ c.started ++ (waiting c.received ++ c.channel)
  pub workers : length c.running ≤ sync_workers
  pub places : length c.channel ≤ sync_capacity
