-- ===== src/Queue/Delivery.antt =====
-- What the consumers of internal/queue/amqp.go do with a delivery: the work, the retries, and the
-- answer to the broker.
use contest_sync.Common.{
  ℕ, ◌+◌, ◌≤◌, ◌<◌, ◌≡◌, Bool, true, false, Option, none, some, List, [], ◌∷◌, Bytes, ltb,
  if◌then◌else◌, arith, ◌⊎◌,
}
use contest_sync.Queue.Publish.{Task}

-- What is sent to the broker for a delivery.
pub data Answer (A : Type 0) : Type 0 where
  -- a new message with the task
  publish : Task A → Answer A
  ack : Answer A
  -- the flag asks for the delivery to be queued again
  nack : Bool → Answer A

-- What the surroundings decide while a failed task is given back: whether json.Marshal, the look at
-- the publishing channel, and the publication succeed.
pub record Republish : Type 0 where
  pub marshals : Bool
  pub channel_up : Bool
  pub publishes : Bool

abbrev pub retry_limit : ℕ
retry_limit = 2

abbrev pub retried : {A : Type 0} → Task A → Task A
retried t = record t { retry_count = t.retry_count + 1 }

-- The goroutine of a consumer behind its semaphore; `failed` tells whether the work returned an
-- error. A publication that fails was not taken by the broker.
unfoldable pub settle : {A : Type 0} → Republish → Bool → Task A → List (Answer A)
settle r false t = ack ∷ []
settle r true t =
    if ltb t.retry_count retry_limit
    then if r.marshals
      then if r.channel_up
        then if r.publishes then publish (retried t) ∷ ack ∷ [] else nack true ∷ []
        else nack true ∷ []
      else nack true ∷ []
    else ack ∷ []

-- A message from the broker: its body decodes to a task or not.
unfoldable pub consume :
    {A : Type 0} → Republish → (Task A → Bool) → Option (Task A) → List (Answer A)
unfolding settle
consume r fails none = nack false ∷ []
consume r fails (some t) = settle r (fails t) t

-- the extraction consumer, with handleExtraction as the work
unfoldable pub extraction_delivery :
    Republish → (Bytes → Bool) → Option (Task Bytes) → List (Answer Bytes)
unfolding consume
extraction_delivery r fails m = consume r (λ t. fails t.payload) m

-- the synchronisation consumer, with SyncUser as the work
unfoldable pub sync_delivery : Republish → (ℕ → Bool) → Option (Task ℕ) → List (Answer ℕ)
unfolding consume
sync_delivery r fails m = consume r (λ t. fails t.payload) m

module _ {A : Type 0} where
  abbrev pub final : Answer A → ℕ
  final (publish t) = 0
  final ack = 1
  final (nack b) = 1

  abbrev pub finals : List (Answer A) → ℕ
  finals [] = 0
  finals (a ∷ rest) = final a + finals rest

  -- the tasks that stay with the broker: those published, and the delivery itself if it is queued
  -- again
  abbrev pub left : Task A → List (Answer A) → List (Task A)
  left t [] = []
  left t (publish u ∷ rest) = u ∷ left t rest
  left t (ack ∷ rest) = left t rest
  left t (nack true ∷ rest) = t ∷ left t rest
  left t (nack false ∷ rest) = left t rest

  -- Every delivery that decodes is answered exactly once, by an ack or a nack. After a success
  -- nothing of it is left with the broker. After a failure exactly one task is left, the same one or
  -- its successor with one retry more, as long as it has been retried less than twice, and nothing
  -- after that.
  pub consume_settles :
      (r : Republish) (fails : Task A → Bool) (t : Task A)
      → let answers = consume r fails (some t) in
        (finals answers ≡ 1)
        × (((fails t ≡ false) × (left t answers ≡ []))
            ⊎ (((fails t ≡ true)
                  × (t.retry_count < 2)
                  × ((left t answers ≡ t ∷ []) ⊎ (left t answers ≡ retried t ∷ [])))
                ⊎ ((fails t ≡ true) × (2 ≤ t.retry_count) × (left t answers ≡ []))))
  unfolding consume
  consume_settles r fails t = ground arith
