-- ===== src/Examples/Consuming.antt =====
-- The goroutine that sends the notices, and a consumer on the broker behind a lost connection.
use contest_sync.Common.{◌≡◌, refl, true, false, none, some, List, [], ◌∷◌, ◌++◌, Bytes, codes}
use contest_sync.Telegram.Client.{TelegramClient}
use contest_sync.Telegram.Notices.{trigger_system_event}
use contest_sync.Telegram.Manager.{
  Manager, new_manager, took_in, draining, stopped, stay, before, emptied,
}
use contest_sync.Telegram.Manager.Drained.{draining-sends}
use contest_sync.Queue.State.{Queue, absent, set_up, no_conn}
use contest_sync.Queue.Publish.{Task}
use contest_sync.Queue.Backoff.{Pass}
use contest_sync.Queue.Consumer.{Arrival, delivery, msgs_closed, consuming, Round, run_consumer}
use contest_sync.Queue.Consumer.Balanced.{Opened, run_consumer-Opened}
use contest_sync.Queue.Consumer.Resumed.{Takes, run_consumer-Takes}

abbrev client : TelegramClient
client = record { from = codes "worker"; failures = 0; cool_down_until = 0 }

abbrev lower : Bytes → Bytes
lower s = s

abbrev one_message : Manager
one_message =
    took_in (new_manager client) (trigger_system_event (codes "STARTUP") (codes "port 1") true [])

abbrev drains : Manager
drains = record one_message { is_cancelled = true; phase = draining; queue = [] }

draining-sends_example :
    (more : List Bytes) × ((record drains { phase = stopped }).attempted
      ≡ (drains.attempted ++ drains.queue) ++ more)
draining-sends_example =
    draining-sends lower drains (record drains { phase = stopped }) refl
      (before (emptied refl refl) stay) refl

abbrev task : Task Bytes
task = record { payload = codes "leetcode"; retry_count = 0 }

abbrev fails : Pass
fails = record {
  done_at_start = false;
  closing = false;
  set_up_ends = no_conn;
  done_in_wait = false;
}

abbrev lost : Queue
lost = record {
  amqp_conn = absent;
  amqp_channel = absent;
  use_in_memory = false;
  amqp_configured = true;
  is_closed = false;
  extraction_ch = [];
  sync_ch = [];
}

abbrev arrivals : List (Arrival Bytes)
arrivals = delivery (some task) ∷ delivery none ∷ msgs_closed ∷ []

abbrev healing : Round Bytes
healing = record {
  is_done = false;
  others = λ q. q;
  passes = fails ∷ record fails { set_up_ends = set_up } ∷ [];
  opening = consuming arrivals;
}

run_consumer-Opened_example :
    Opened 0 (run_consumer (healing ∷ []) lost).stop (run_consumer (healing ∷ []) lost).notes
run_consumer-Opened_example = run_consumer-Opened (healing ∷ []) lost

run_consumer-Takes_example : Takes arrivals (run_consumer (healing ∷ []) lost)
run_consumer-Takes_example =
    run_consumer-Takes healing [] lost (fails ∷ []) (record fails { set_up_ends = set_up }) arrivals
      refl refl refl ((refl, refl, refl), tt) (refl, refl, refl) refl refl
