-- ===== src/Queue/Consumer.antt =====
-- runSelfHealingExtractionConsumer and runSelfHealingSyncConsumer of internal/queue/amqp.go: the loop
-- that opens a channel for a consumer on the broker, and opens it again after a failure. The two
-- differ in their names and in the number of deliveries that the broker and the semaphore let through
-- at a time; what is done with a delivery is in Delivery.
pub mod Balanced
pub mod Resumed
use contest_sync.Common.{ℕ, Bool, true, false, Option, none, some, List, [], ◌∷◌, if◌then◌else◌}
use contest_sync.Queue.State.{Queue, is_down}
use contest_sync.Queue.Publish.{Task}
use contest_sync.Queue.Backoff.{
  Pass, Ended, connected, cancelled, queue_closed, unfinished, Reconnected, reconnect_with_backoff,
}

-- What the select of the inner loop meets: a delivery with its decoded body, the end of `msgs`, or
-- ctx.Done().
pub data Arrival (A : Type 0) : Type 0 where
  delivery : Option (Task A) → Arrival A
  msgs_closed ctx_done : Arrival A

-- How far a pass gets behind the connection, with the passes of the reconnectWithBackoff behind a
-- failure.
pub data Opening (A : Type 0) : Type 0 where
  no_channel no_qos no_consumer : List Pass → Opening A
  consuming : List (Arrival A) → Opening A

-- One pass of the outer loop: whether ctx is done, what others have done to the queue since the pass
-- before, the passes of the first reconnectWithBackoff, and the rest.
pub record Round (A : Type 0) : Type 0 where
  pub is_done : Bool
  pub others : Queue → Queue
  pub passes : List Pass
  pub opening : Opening A

-- What a consumer does: sleeps are in seconds, and a delivery is refused or handed to a goroutine.
pub data Note (A : Type 0) : Type 0 where
  reconnect open_channel close_channel : Note A
  sleep : ℕ → Note A
  took : Option (Task A) → Note A

-- It returns, waits for the next arrival, or the passes that are given are used up.
pub data Stop : Type 0 where
  returned receiving used_up : Stop

pub record Run (A : Type 0) : Type 0 where
  pub stop : Stop
  pub queue : Queue
  pub notes : List (Note A)

module _ {A : Type 0} where
  abbrev pub stop_by : Stop → Queue → Run A
  stop_by s q = record { stop = s; queue = q; notes = [] }

  abbrev pub noted : Note A → Run A → Run A
  noted n r = record r { notes = n ∷ r.notes }

  -- the inner loop, with the next pass behind it
  unfoldable pub receive : List (Arrival A) → Queue → (Queue → Run A) → Run A
  receive [] q rest = stop_by receiving q
  receive (delivery m ∷ more) q rest = noted (took m) (receive more q rest)
  receive (msgs_closed ∷ more) q rest = noted close_channel (noted (sleep 1) (rest q))
  receive (ctx_done ∷ more) q rest = noted close_channel (stop_by returned q)

  -- `if err := q.reconnectWithBackoff(ctx); err != nil { return }`
  unfoldable pub or_return : Ended → Queue → (Queue → Run A) → Run A
  or_return connected q rest = rest q
  or_return cancelled q rest = stop_by returned q
  or_return queue_closed q rest = stop_by returned q
  or_return unfinished q rest = stop_by used_up q

  -- `_ = q.reconnectWithBackoff(ctx)`, and the sleep behind it
  unfoldable pub regardless : Ended → Queue → (Queue → Run A) → Run A
  regardless unfinished q rest = stop_by used_up q
  regardless _ q rest = noted (sleep 1) (rest q)

  unfoldable pub heal : List Pass → Queue → (Queue → Run A) → Run A
  unfolding regardless
  heal passes q rest =
      let c = reconnect_with_backoff passes q in noted reconnect (regardless c.ended c.queue rest)

  -- from conn.Channel() on
  unfoldable pub start_consuming : Opening A → Queue → (Queue → Run A) → Run A
  unfolding heal receive
  start_consuming (no_channel passes) q rest = heal passes q rest
  start_consuming (no_qos passes) q rest =
      noted open_channel (noted close_channel (heal passes q rest))
  start_consuming (no_consumer passes) q rest =
      noted open_channel (noted close_channel (heal passes q rest))
  start_consuming (consuming arrivals) q rest = noted open_channel (receive arrivals q rest)

  unfoldable pub consume_or_sleep : Opening A → Queue → (Queue → Run A) → Run A
  unfolding start_consuming is_down
  consume_or_sleep o q rest =
      if is_down q.amqp_conn then noted (sleep 2) (rest q) else start_consuming o q rest

  unfoldable pub reconnected : Round A → Queue → (Queue → Run A) → Run A
  unfolding or_return
  reconnected r q rest =
      let c = reconnect_with_backoff r.passes q in
      noted reconnect (or_return c.ended c.queue (λ q'. consume_or_sleep r.opening q' rest))

  unfoldable pub pass : Round A → Queue → (Queue → Run A) → Run A
  unfolding consume_or_sleep reconnected is_down
  pass r q rest =
      if q.is_closed
      then stop_by returned q
      else if is_down q.amqp_conn
      then reconnected r q rest
      else consume_or_sleep r.opening q rest

  unfoldable pub run_consumer : List (Round A) → Queue → Run A
  unfolding pass
  run_consumer [] q = stop_by used_up q
  run_consumer (r ∷ rounds) q =
      if r.is_done then stop_by returned q else pass r (r.others q) (run_consumer rounds)
