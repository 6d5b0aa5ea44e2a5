-- ===== src/Queue/Publish.antt =====
-- PublishExtractionTask and PublishSyncTask of internal/queue/amqp.go, and the in-memory consumers'
-- side of the channels.
use contest_sync.Common.{
  ℕ, ◌<◌, ◌≡◌, Bool, true, false, ◌||◌, Option, none, some, List, [], ◌∷◌, ◌++◌, Bytes, ltb,
  if◌then◌else◌, length, arith, ◌⊎◌,
}
use contest_sync.Queue.State.{Queue, Link, absent, is_down}

pub data PublishError : Type 0 where
  full cancelled broker : PublishError

-- ExtractionTask and SyncTask
pub record Task {ℓ} (A : Type ℓ) : Type ℓ where
  pub payload : A
  pub retry_count : ℕ

-- What the surroundings decide: whether ctx is done, which of two ready cases the select takes, and
-- whether the broker takes the message.
pub record Surroundings : Type 0 where
  pub done : Bool
  pub takes_send : Bool
  pub broker_takes : Bool

-- `select { case ch <- x: … case <-ctx.Done(): … default: … }` with `capacity` places in the channel
unfoldable pub select_send {ℓ} :
    {A : Type ℓ} → ℕ → Surroundings → A → List A → Option PublishError × List A
select_send capacity o x ch =
    if ltb (length ch) capacity
    then if o.done
      then if o.takes_send then (none, ch ++ x ∷ []) else (some cancelled, ch)
      else (none, ch ++ x ∷ [])
    else if o.done
    then (some cancelled, ch)
    else (some full, ch)

-- What a select with a default does: the value stands at the end of a channel that had room for it, or
-- the channel is as it was.
pub select_send-cases :
    {A : Type 0} (n : ℕ) (o : Surroundings) (x : A) (ch : List A)
    → ((select_send n o x ch ≡ (none, ch ++ x ∷ [])) × (length ch < n))
      ⊎ ((select_send n o x ch ≡ (some full, ch)) ⊎ (select_send n o x ch ≡ (some cancelled, ch)))
unfolding select_send
select_send-cases n o x ch = ground arith

abbrev is_absent : Link → Bool
is_absent absent = true
is_absent _ = false

-- the variable inMemory
unfoldable pub in_memory : Queue → Bool
unfolding is_down
in_memory q = q.use_in_memory || is_absent q.amqp_channel || is_down q.amqp_conn

abbrev pub extraction_capacity : ℕ
extraction_capacity = 100

abbrev pub sync_capacity : ℕ
sync_capacity = 1000

abbrev pub broker_publish {ℓ} :
    {A : Type ℓ} → Surroundings → A → Option PublishError × Option (Task A)
broker_publish o x =
    if o.broker_takes
    then (none, some (record { payload = x; retry_count = 0 }))
    else (some broker, none)

-- The error, the message that the broker has taken, and the queue.
pub record Published (A : Type 0) : Type 0 where
  pub error : Option PublishError
  pub message : Option (Task A)
  pub queue : Queue

unfoldable pub publish_extraction_task : Surroundings → Bytes → Queue → Published Bytes
publish_extraction_task o platform q =
    let (e, ch) = select_send extraction_capacity o platform q.extraction_ch in
    let (be, m) = broker_publish o platform in
    if in_memory q
    then record { error = e; message = none; queue = record q { extraction_ch = ch } }
    else record { error = be; message = m; queue = q }

unfoldable pub publish_sync_task : Surroundings → ℕ → Queue → Published ℕ
publish_sync_task o user_id q =
    let (e, ch) = select_send sync_capacity o user_id q.sync_ch in
    let (be, m) = broker_publish o user_id in
    if in_memory q
    then record { error = e; message = none; queue = record q { sync_ch = ch } }
    else record { error = be; message = m; queue = q }
