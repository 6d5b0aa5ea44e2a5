-- ===== src/Examples/Queueing.antt =====
-- The queue with a broker that fails, and the scheduler.
use contest_sync.Common.{
  ℕ, ◌≡◌, ◌≤◌, ◌<◌, refl, true, false, Option, none, some, List, [], ◌∷◌, ◌++◌, Bytes, codes, arith,
  is_empty, ◌⊎◌, All,
}
use contest_sync.World.Models.{Result, ok, Contest}
use contest_sync.Queue.State.{SetUp, set_up, no_conn, empty_queue, new_queue}
use contest_sync.Queue.Publish.{Task, Surroundings, publish_sync_task}
use contest_sync.Queue.Delivery.{Republish, consume, finals, left, retried, consume_settles}
use contest_sync.Queue.Backoff.{
  Pass, reconnect_with_backoff, IsReady, reconnect_with_backoff-IsReady,
}
use contest_sync.Queue.Stranded.{start_consumers, ReadsChannels, publish_sync_task_unread}
use contest_sync.Queue.Extraction.{
  handle_extraction, error_and_changes, asked_for, handle_extraction_lem,
}
use contest_sync.Scheduler.{UserRow}
use contest_sync.Db.{Pools}
use contest_sync.Examples.Fixtures.{round_262, healthy, start}

abbrev calm : Surroundings
calm = record { done = false; takes_send = true; broker_takes = true }

abbrev task : Task ℕ
task = record { payload = 5; retry_count = 1 }

abbrev back : Republish
back = record { marshals = true; channel_up = true; publishes = true }

consume_settles_example :
    let answers = consume back (λ t. true) (some task) in
    (finals answers ≡ 1)
    × (((true ≡ false) × (left task answers ≡ []))
        ⊎ (((true ≡ true)
              × (1 < 2)
              × ((left task answers ≡ task ∷ []) ⊎ (left task answers ≡ retried task ∷ [])))
            ⊎ ((true ≡ true) × (2 ≤ 1) × (left task answers ≡ []))))
consume_settles_example = consume_settles back (λ t. true) task

abbrev url : Bytes
url = codes "amqp://broker"

abbrev pass : SetUp → Pass
pass s = record { done_at_start = false; closing = false; set_up_ends = s; done_in_wait = false }

reconnect_with_backoff-IsReady_example :
    IsReady
      (reconnect_with_backoff ((pass no_conn ∷ []) ++ pass set_up ∷ []) (empty_queue false true))
reconnect_with_backoff-IsReady_example =
    reconnect_with_backoff-IsReady (pass no_conn ∷ []) (pass set_up) (empty_queue false true)
      ((refl, refl, refl), tt) (refl, refl, refl) refl refl

publish_sync_task_unread_example :
    let q = new_queue url no_conn in
    let p = publish_sync_task calm 5 q in
    (p.error ≡ none)
    × (p.message ≡ none)
    × (p.queue.sync_ch ≡ 5 ∷ [])
    × All (λ r. ReadsChannels r → ⊥) (start_consumers p.queue)
unfolding is_empty
publish_sync_task_unread_example =
    publish_sync_task_unread url no_conn calm 5 refl (λ h. ground arith) refl

abbrev fetchers : Bytes → Option (Result (List (Contest × ℕ)))
fetchers platform = some (ok ((round_262, 5400) ∷ []))

handle_extraction_lem_example :
    error_and_changes (handle_extraction healthy fetchers true true (codes "leetcode") start)
    ≡ asked_for healthy true true (codes "leetcode") start (fetchers (codes "leetcode"))
handle_extraction_lem_example =
    handle_extraction_lem healthy true true (codes "leetcode") start fetchers

abbrev granted : UserRow
granted = record { id = 1; has_calendar_access = true; refresh_token = some (codes "t") }

abbrev revoked : UserRow
revoked = record { id = 2; has_calendar_access = false; refresh_token = some (codes "t") }

-- three pools, the last call took the second of them
abbrev pools : Pools ℕ
pools = record { write = 0; reads = 10 ∷ 20 ∷ 30 ∷ []; read_idx = 2 }
